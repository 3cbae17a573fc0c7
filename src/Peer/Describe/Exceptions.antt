-- ===== src/Peer/Describe/Exceptions.antt =====
-- How many exceptions descriptions, candidates and addresses throw.
use libdatachannel_java.Prelude.{Option, none, some}
use libdatachannel_java.Prelude.Int.{ℤ}
use libdatachannel_java.Native.Event.{Ref}
use libdatachannel_java.Native.World.{Env}
use libdatachannel_java.Logic.Costs.{
  Costs-pure, Costs-when, Costs-free->>=, Costs-free->>, Costs->>=-free, Costs->>-free,
}
use libdatachannel_java.Logic.Costs.Raises.{
  Raises, rtc-Raises, free-Raises, malloc-Raises, get_string_utf_chars-Raises,
  release_string_utf_chars-Raises, parse_candidate_pair-Raises,
}
use libdatachannel_java.Util.Exceptions.{fail-Raises, wrap_error-Raises}
use libdatachannel_java.Strings.Exceptions.{with_chars-Raises, release_if_chars-Raises}
use libdatachannel_java.Peer.Describe.{
  set_local_description, set_remote_from, set_remote_description, add_remote_candidate,
  candidate_pair_from, remote_buffer, get_selected_candidate_pair,
}

module _ {env : Env} where
  pub set_local_description-Raises :
      (h : ℤ) (type : Option Ref) → Raises 1 env (set_local_description h type)
  unfolding set_local_description
  set_local_description-Raises h none = Costs-free->>= (rtc-Raises _) λ n. wrap_error-Raises _ n
  set_local_description-Raises h (some type) =
      Costs-free->>= (get_string_utf_chars-Raises type) (elim [
        | none ↦ fail-Raises _ _
        | some c ↦ Costs-free->>= (rtc-Raises _) λ n.
            Costs->>=-free (wrap_error-Raises _ n)
              λ status. Costs-free->> (release_string_utf_chars-Raises _ _) (Costs-pure status)
      ])

  pub set_remote_description-Raises :
      (h : ℤ) (sdp type : Option Ref) → Raises 1 env (set_remote_description h sdp type)
  unfolding set_remote_description set_remote_from
  set_remote_description-Raises h none type = fail-Raises _ _
  set_remote_description-Raises h (some sdp) type =
      Costs-free->>= (get_string_utf_chars-Raises sdp) (elim [
        | none ↦ fail-Raises _ _
        | some c ↦
            with_chars-Raises type
              (Costs-free->> (release_string_utf_chars-Raises _ _) (fail-Raises _ _))
              λ d. Costs-free->>= (rtc-Raises _) λ n.
                Costs->>=-free (wrap_error-Raises _ n) λ status.
                  Costs-free->> (release_string_utf_chars-Raises _ _)
                    (Costs-free->> (release_if_chars-Raises type d) (Costs-pure status))
      ])

  pub add_remote_candidate-Raises :
      (h : ℤ) (candidate media_id : Option Ref)
      → Raises 1 env (add_remote_candidate h candidate media_id)
  unfolding add_remote_candidate
  add_remote_candidate-Raises h candidate media_id =
      with_chars-Raises candidate (fail-Raises _ _) λ c.
        with_chars-Raises media_id
          (Costs-free->> (release_if_chars-Raises candidate c) (fail-Raises _ _))
          λ d. Costs-free->>= (rtc-Raises _) λ n.
            Costs-free->> (release_if_chars-Raises candidate c)
              (Costs-free->> (release_if_chars-Raises media_id d) (Costs-pure n))

  pub get_selected_candidate_pair-Raises : (h : ℤ) → Raises 1 env (get_selected_candidate_pair h)
  unfolding get_selected_candidate_pair remote_buffer candidate_pair_from
  get_selected_candidate_pair-Raises h = Costs-free->>= (malloc-Raises _) (elim [
    | none ↦ fail-Raises _ none
    | some l ↦ Costs-free->>= (malloc-Raises _) (elim [
      | none ↦ Costs-free->> (free-Raises _) (fail-Raises _ none)
      | some r ↦ Costs-free->>= (rtc-Raises _) λ n.
          Costs-when _
            (Costs-free->> (free-Raises _) (
              Costs-free->> (free-Raises _)
                (Costs->>-free (wrap_error-Raises _ n) (Costs-pure none))))
            (Costs-free->>= (parse_candidate_pair-Raises l r) λ pair.
              Costs-free->> (free-Raises _) (Costs-free->> (free-Raises _) (Costs-pure pair)))
    ])
  ])
