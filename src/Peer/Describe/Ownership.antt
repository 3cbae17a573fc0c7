-- ===== src/Peer/Describe/Ownership.antt =====
-- The ledger of descriptions, candidates and addresses.
use libdatachannel_java.Prelude.{refl, Option, none, some, List, ◌∷◌, arith}
use libdatachannel_java.Prelude.Int.{ℤ}
use libdatachannel_java.Native.Event.{Ptr, Ref}
use libdatachannel_java.Logic.Ledger.{Resource, block, chars, local_ref, one_self}
use libdatachannel_java.Logic.Moves.{Moves, Moves-pure, Moves->>=, Moves->>, got}
use libdatachannel_java.Logic.Rules.{
  rtc-Moves, malloc-Moves, free-Moves, get_string_utf_chars-Moves, when-Moves, Splits-got,
  release_string_utf_chars-Moves, parse_candidate_pair-Moves,
}
use libdatachannel_java.Util.Ownership.{fail-Moves, wrap_error-Moves}
use libdatachannel_java.Strings.Ownership.{
  lend, count-lend, count-lend_twice, Lent-lent, with_chars-Moves, release_if_chars-Moves,
}
use libdatachannel_java.Peer.Describe.{
  set_local_description, set_remote_from, set_remote_description, add_remote_candidate,
  candidate_pair_from, remote_buffer, get_selected_candidate_pair,
}

module _ {P : List Resource} (peer : ℤ) where
  pub set_local_description-Moves :
      (type : Option Ref) → Moves P (set_local_description peer type) (λ _. P)
  unfolding set_local_description
  set_local_description-Moves none =
      Moves->>= (rtc-Moves _ (λ t h. tt)) λ result. wrap_error-Moves _ result
  set_local_description-Moves (some s) = Moves->>= (get_string_utf_chars-Moves s) (elim [
    | none ↦ fail-Moves _ _ refl
    | some c ↦
        Moves->>= (rtc-Moves _ (λ t h. (s, omega (arith, h (chars s c), one_self (chars s c)))))
          λ n. Moves->>= (wrap_error-Moves _ n) λ status.
            Moves->> (release_string_utf_chars-Moves s c P (λ r. refl)) (Moves-pure status refl)
  ])

  set_remote_from-Moves :
      (s : Ref) (type : Option Ref) (c : Ptr)
      → Moves (chars s c ∷ P) (set_remote_from peer s type c) (λ _. P)
  unfolding set_remote_from
  set_remote_from-Moves s type c =
      with_chars-Moves type
        (Moves->> (release_string_utf_chars-Moves s c P (λ r. refl)) (fail-Moves _ _ refl))
        λ d p.
          let all = count-lend type d (chars s c ∷ P) in
          Moves->>=
            (rtc-Moves _ (λ t h. (
              (s, omega (arith, h (chars s c), all (chars s c), one_self (chars s c))),
              Lent-lent type d t p (λ r. omega (arith, h r, all r)),
            )))
            λ n. Moves->>= (wrap_error-Moves _ n) λ status.
              Moves->>
                (release_string_utf_chars-Moves s c (lend type d P)
                  (λ r. omega (arith, all r, count-lend type d P r)))
                (Moves->> (release_if_chars-Moves type d P p (count-lend type d P))
                  (Moves-pure status refl))

  pub set_remote_description-Moves :
      (sdp type : Option Ref) → Moves P (set_remote_description peer sdp type) (λ _. P)
  unfolding set_remote_description
  set_remote_description-Moves none type = fail-Moves _ _ refl
  set_remote_description-Moves (some s) type =
      Moves->>= (get_string_utf_chars-Moves s)
        (elim [ none ↦ fail-Moves _ _ refl | some c ↦ set_remote_from-Moves s type c ])

  pub add_remote_candidate-Moves :
      (candidate media_id : Option Ref)
      → Moves P (add_remote_candidate peer candidate media_id) (λ _. P)
  unfolding add_remote_candidate
  add_remote_candidate-Moves candidate media_id =
      with_chars-Moves candidate (fail-Moves _ _ refl) λ c p.
        with_chars-Moves media_id
          (Moves->> (release_if_chars-Moves candidate c P p (count-lend candidate c P))
            (fail-Moves _ _ refl))
          λ d q.
            let all = count-lend_twice media_id d candidate c P in
            Moves->>=
              (rtc-Moves _ (λ t h. (
                Lent-lent candidate c t p (λ r. omega (arith, h r, all r)),
                Lent-lent media_id d t q (λ r. omega (arith, h r, all r)),
              )))
              λ n.
                Moves->>
                  (release_if_chars-Moves candidate c (lend media_id d P) p
                    (λ r. omega (arith, all r, count-lend media_id d P r)))
                  (Moves->> (release_if_chars-Moves media_id d P q (count-lend media_id d P))
                    (Moves-pure n refl))

  candidate_pair_from-Moves :
      (a b : Ptr)
      → Moves (block b ∷ block a ∷ P) (candidate_pair_from peer a b) (λ r. got local_ref r P)
  unfolding candidate_pair_from
  candidate_pair_from-Moves a b =
      Moves->>=
        (rtc-Moves _ (λ t h. (
          omega (arith, h (block a), one_self (block a)),
          omega (arith, h (block b), one_self (block b)),
        )))
        λ n.
          when-Moves _
            (Moves->> (free-Moves a (block b ∷ P) (λ r. omega arith)) (
              Moves->> (free-Moves b P (λ r. refl))
                (Moves->> (wrap_error-Moves _ n) (Moves-pure none refl))))
            (Moves->>=
              (parse_candidate_pair-Moves a b (λ t h. (
                omega (arith, h (block a), one_self (block a)),
                omega (arith, h (block b), one_self (block b)),
              )))
              λ o.
                Moves->>
                  (free-Moves a (got local_ref o (block b ∷ P))
                    (Splits-got _ _ local_ref o (block a) (λ r. omega arith)))
                  (Moves->>
                    (free-Moves b (got local_ref o P)
                      (Splits-got _ _ local_ref o (block b) (λ r. refl)))
                    (Moves-pure o refl)))

  -- Only the pair that is returned stays.
  pub get_selected_candidate_pair-Moves :
      Moves P (get_selected_candidate_pair peer) (λ r. got local_ref r P)
  unfolding get_selected_candidate_pair remote_buffer
  get_selected_candidate_pair-Moves = Moves->>= (malloc-Moves _) (elim [
    | none ↦ fail-Moves _ _ refl
    | some a ↦ Moves->>= (malloc-Moves _) (elim [
      | none ↦ Moves->> (free-Moves a P (λ r. refl)) (fail-Moves _ _ refl)
      | some b ↦ candidate_pair_from-Moves a b
    ])
  ])
