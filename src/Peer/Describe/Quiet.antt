-- ===== src/Peer/Describe/Quiet.antt =====
-- The listeners and user pointers under descriptions, candidates and addresses.
use libdatachannel_java.Logic.Stays.{
  Stays, Stays-pure, Stays->>=, Stays->>, Stays-when, rtc-Stays, free-Stays, malloc-Stays,
  get_string_utf_chars-Stays, release_string_utf_chars-Stays, parse_candidate_pair-Stays,
}
use libdatachannel_java.Prelude.{Option, none, some}
use libdatachannel_java.Prelude.Int.{ℤ}
use libdatachannel_java.Native.Event.{Ref}
use libdatachannel_java.Native.World.{Env}
use libdatachannel_java.Util.Quiet.{fail-Stays, wrap_error-Stays}
use libdatachannel_java.Strings.Quiet.{with_chars-Stays, release_if_chars-Stays}
use libdatachannel_java.Peer.Describe.{
  set_local_description, set_remote_from, set_remote_description, add_remote_candidate,
  candidate_pair_from, remote_buffer, get_selected_candidate_pair,
}

module _ {env : Env} {peer : ℤ} where
  pub set_local_description-Stays :
      (h : ℤ) (type : Option Ref) → Stays env peer (set_local_description h type)
  unfolding set_local_description
  set_local_description-Stays h none = Stays->>= (rtc-Stays _) λ n. wrap_error-Stays _ n
  set_local_description-Stays h (some type) = Stays->>= (get_string_utf_chars-Stays type) (elim [
    | none ↦ fail-Stays _ _
    | some c ↦ Stays->>= (rtc-Stays _) λ n.
        Stays->>= (wrap_error-Stays _ n)
          λ status. Stays->> (release_string_utf_chars-Stays _ _) (Stays-pure status)
  ])

  pub set_remote_description-Stays :
      (h : ℤ) (sdp type : Option Ref) → Stays env peer (set_remote_description h sdp type)
  unfolding set_remote_description set_remote_from
  set_remote_description-Stays h none type = fail-Stays _ _
  set_remote_description-Stays h (some sdp) type =
      Stays->>= (get_string_utf_chars-Stays sdp) (elim [
        | none ↦ fail-Stays _ _
        | some c ↦
            with_chars-Stays type (Stays->> (release_string_utf_chars-Stays _ _) (fail-Stays _ _))
              λ d. Stays->>= (rtc-Stays _) λ n. Stays->>= (wrap_error-Stays _ n) λ status.
                Stays->> (release_string_utf_chars-Stays _ _)
                  (Stays->> (release_if_chars-Stays type d) (Stays-pure status))
      ])

  pub add_remote_candidate-Stays :
      (h : ℤ) (candidate media_id : Option Ref)
      → Stays env peer (add_remote_candidate h candidate media_id)
  unfolding add_remote_candidate
  add_remote_candidate-Stays h candidate media_id = with_chars-Stays candidate (fail-Stays _ _) λ c.
      with_chars-Stays media_id (Stays->> (release_if_chars-Stays candidate c) (fail-Stays _ _))
        λ d. Stays->>= (rtc-Stays _) λ n.
          Stays->> (release_if_chars-Stays candidate c)
            (Stays->> (release_if_chars-Stays media_id d) (Stays-pure n))

  pub get_selected_candidate_pair-Stays : (h : ℤ) → Stays env peer (get_selected_candidate_pair h)
  unfolding get_selected_candidate_pair remote_buffer candidate_pair_from
  get_selected_candidate_pair-Stays h = Stays->>= (malloc-Stays _) (elim [
    | none ↦ fail-Stays _ none
    | some l ↦ Stays->>= (malloc-Stays _) (elim [
      | none ↦ Stays->> (free-Stays _) (fail-Stays _ none)
      | some r ↦ Stays->>= (rtc-Stays _) λ n.
          Stays-when _
            (Stays->> (free-Stays _)
              (Stays->> (free-Stays _) (Stays->> (wrap_error-Stays _ n) (Stays-pure none))))
            (Stays->>= (parse_candidate_pair-Stays l r)
              λ pair. Stays->> (free-Stays _) (Stays->> (free-Stays _) (Stays-pure pair)))
    ])
  ])
