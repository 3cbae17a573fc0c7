-- ===== src/Channel/Transfer/Ownership.antt =====
-- The ledger of sending and receiving, read off the outcomes.
use libdatachannel_java.Prelude.{
  ℕ, ◌+◌, ◌≡◌, refl, sym, subst, Option, none, some, inl, inr, List, [], ◌∷◌, arith,
}
use libdatachannel_java.Prelude.Int.{ℤ, pos, pos_part}
use libdatachannel_java.Native.Event.{Ptr, Ref, Event, Trace}
use libdatachannel_java.Native.World.{World, Env}
use libdatachannel_java.Logic.Buffers.{IsBuffer, Inside, IsReadable}
use libdatachannel_java.Logic.Ledger.{Resource, local_ref, one_self, gain, loss, Allowed}
use libdatachannel_java.Logic.Moves.{Owns, Owns-∷, Owns-Holds, Moves, got}
use libdatachannel_java.Channel.Transfer.{send_message, receive_message, receive_message_into}
use libdatachannel_java.Channel.Transfer.Outcomes.{
  Fits, fits, IsSendable, bytes, text, located, Sent, send_message-Sent,
}
use libdatachannel_java.Channel.Transfer.Outcomes as Outcomes
use libdatachannel_java.Channel.Transfer.Outcomes.Into as Into
use libdatachannel_java.Channel.Transfer.Outcomes.Into.{Result, Filled, receive_message_into-Filled}
use libdatachannel_java.Channel.Transfer.Outcomes.New as New
use libdatachannel_java.Channel.Transfer.Outcomes.New.{
  Measured, measured, unmeasured, acquired, Taken, Received, receive_message-Received,
}

located-IsBuffer : (b : Ref) (base : Ptr) (k : ℤ) (t : Trace) → IsBuffer (located b base k t) base k
located-IsBuffer b base k t = record {
  buffer = b;
  at_base = inr (inl refl);
  of_capacity = inl refl;
}

pub Fits-Inside :
    (b : Ref) (base : Ptr) (t : Trace) {k o n : ℤ}
    → Fits k o n
    → Inside (located b base k t) (base + pos_part o) n
Fits-Inside b base t (fits {k} h) = record {
  base = base;
  capacity = pos k;
  known = located-IsBuffer b base (pos k) t;
  not_negative = omega arith;
  starts = omega arith;
  ends = omega arith;
}

IsSendable-IsReadable :
    (b : Ref) (base : Ptr) (t : Trace) {k o n : ℤ}
    → IsSendable k o n
    → IsReadable (located b base k t) (base + pos_part o) n
IsSendable-IsReadable b base t (bytes h) = Fits-Inside b base t (fits h)
IsSendable-IsReadable b base t (text {k} h) = record {
  base = base;
  capacity = pos k;
  known = located-IsBuffer b base (pos k) t;
  starts = omega arith;
  ends = omega arith;
}

module _ {P : List Resource} {rest : Resource → ℕ} where
  -- A call that neither obtains nor gives back.
  Owns-same :
      (e : Event) {t : Trace}
      → Owns P rest t
      → Allowed t e
      → gain e ≡ []
      → loss e ≡ []
      → Owns P rest (e ∷ t)
  Owns-same e o a g l = Owns-∷ P e o a (λ r. rw (g, l) refl)

  Owns-at : {t u : Trace} → u ≡ t → Owns P rest t → Owns P rest u
  Owns-at e o = subst (Owns P rest) (sym e) o

  Owns-located :
      (b : Ref) (base : Ptr) (k : ℤ) {t : Trace} → Owns P rest t → Owns P rest (located b base k t)
  Owns-located b base k o = Owns-same _ (Owns-same _ o tt refl refl) tt refl refl

  Sent-Owns :
      {channel offset length : ℤ} {t : Trace} {b : Option Ref} {r : ℤ × World}
      → Sent channel offset length t b r
      → Owns P rest t
      → Owns P rest r.1.trace
  Sent-Owns (Outcomes.no_buffer e) o = Owns-at e o
  Sent-Owns (Outcomes.not_direct b x e) o =
      Owns-at e (Owns-same _ (Owns-same _ o tt refl refl) tt refl refl)
  Sent-Owns (Outcomes.out_of_range b base k x n e) o =
      Owns-at e (Owns-same _ (Owns-located b base k o) tt refl refl)
  Sent-Owns (Outcomes.sent b base k n f e) o =
      Owns-at e (Owns-same _ (Owns-located b base k o) (IsSendable-IsReadable b base _ f) refl refl)

  Result-Owns :
      {n size : ℤ} {t : Trace} {r : ℤ × World}
      → Result n size t r
      → Owns P rest t
      → Owns P rest r.1.trace
  Result-Owns (Into.nothing_available p e) o = Owns-at e o
  Result-Owns (Into.too_small p e) o = Owns-at e o
  Result-Owns (Into.received p e) o = Owns-at e o
  Result-Owns (Into.refused x p a s c e) o = Owns-at e (Owns-same _ o tt refl refl)

  Filled-Owns :
      {channel offset capacity : ℤ} {env : Env} {t : Trace} {b : Option Ref} {r : ℤ × World}
      → Filled channel offset capacity env t b r
      → Owns P rest t
      → Owns P rest r.1.trace
  Filled-Owns (Into.no_buffer e) o = Owns-at e o
  Filled-Owns (Into.not_direct b x e) o =
      Owns-at e (Owns-same _ (Owns-same _ o tt refl refl) tt refl refl)
  Filled-Owns (Into.out_of_range b base k x n e) o =
      Owns-at e (Owns-same _ (Owns-located b base k o) tt refl refl)
  Filled-Owns (Into.asked b base k n f h) o =
      Result-Owns h (Owns-same _ (Owns-located b base k o) (inl (Fits-Inside b base _ f)) refl refl)

  Measured-Owns : {channel : ℤ} {t u : Trace} → Measured channel t u → Owns P rest t → Owns P rest u
  Measured-Owns (measured n p) o = Owns-same _ o tt refl refl
  Measured-Owns (unmeasured n x p c) o = Owns-same _ (Owns-same _ o tt refl refl) tt refl refl

-- The buffer that Java has allocated.
Owns-acquired :
    {P : List Resource} {rest : Resource → ℕ} (size : ℤ) (b : Ref) (p : Option Ptr) {u : Trace}
    → Owns P rest u
    → Owns (local_ref b ∷ P) rest (acquired size b p u)
Owns-acquired {P} size b p o =
    Owns-same _ (Owns-∷ (local_ref b ∷ P) _ o tt (λ r. omega arith)) tt refl refl

Owns-deleted :
    {P : List Resource} {rest : Resource → ℕ} (b : Ref) {u : Trace}
    → Owns (local_ref b ∷ P) rest u
    → Owns P rest (Event.delete_local_ref (some b) ∷ u)
Owns-deleted {P} b o =
    Owns-∷ P _ o (omega (arith, Owns-Holds o (local_ref b), one_self (local_ref b)))
      (λ r. omega arith)

Owns-taken :
    {P : List Resource} {rest : Resource → ℕ} (channel size : ℤ) (b : Ref) (p : Ptr) (n : ℤ)
    {u : Trace}
    → Owns P rest u
    → Owns (local_ref b ∷ P) rest (New.taken channel size b p n u)
Owns-taken channel size b p n o =
    Owns-same _ (Owns-acquired size b (some p) o)
      (inr (record { buffer = b; of_size = inr (inl refl); at_start = inl refl })) refl refl

module _ {P : List Resource} {rest : Resource → ℕ} where
  Taken-Owns :
      {channel size : ℤ} {u : Trace} {r : Option Ref × World}
      → Taken channel size u r
      → Owns P rest u
      → Owns (got local_ref r.0 P) rest r.1.trace
  Taken-Owns (New.not_allocated e) o = Owns-at e (Owns-same _ o tt refl refl)
  Taken-Owns (New.not_direct b x e) o =
      Owns-at e (Owns-same _ (Owns-deleted b (Owns-acquired _ b none o)) tt refl refl)
  Taken-Owns (New.received b p n h e) o = Owns-at e (Owns-taken _ _ b p n o)
  Taken-Owns (New.gone b p n h e) o = Owns-at e (Owns-deleted b (Owns-taken _ _ b p n o))
  Taken-Owns (New.refused b p n x l h c e) o =
      Owns-at e (Owns-deleted b (Owns-same _ (Owns-taken _ _ b p n o) tt refl refl))

  Received-Owns :
      {channel : ℤ} {env : Env} {t : Trace} {r : Option Ref × World}
      → Received channel env t r
      → Owns P rest t
      → Owns (got local_ref r.0 P) rest r.1.trace
  Received-Owns (New.no_message m h e) o = Owns-at e (Measured-Owns m o)
  Received-Owns (New.with_size m h k) o = Taken-Owns k (Measured-Owns m o)

module _ {P : List Resource} (channel : ℤ) where
  pub send_message-Moves :
      (buffer : Option Ref) (offset length : ℤ)
      → Moves P (send_message channel buffer offset length) (λ _. P)
  send_message-Moves buffer offset length = record {
    run = λ env w rest o. Sent-Owns (send_message-Sent channel buffer offset length env w) o;
  }

  -- Only the buffer that is returned stays.
  pub receive_message-Moves : Moves P (receive_message channel) (λ r. got local_ref r P)
  receive_message-Moves = record {
    run = λ env w rest o. Received-Owns (receive_message-Received channel env w) o;
  }

  pub receive_message_into-Moves :
      (buffer : Option Ref) (offset capacity : ℤ)
      → Moves P (receive_message_into channel buffer offset capacity) (λ _. P)
  receive_message_into-Moves buffer offset capacity = record {
    run = λ env w rest o.
        Filled-Owns (receive_message_into-Filled channel buffer offset capacity env w) o;
  }
