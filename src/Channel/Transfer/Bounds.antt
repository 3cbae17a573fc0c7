-- ===== src/Channel/Transfer/Bounds.antt =====
-- Where the memory of a message lies relative to the Java buffer.
use libdatachannel_java.Prelude.{◌≡◌, sym, subst, Option, some, [], ◌∷◌}
use libdatachannel_java.Prelude.Int.{ℤ}
use libdatachannel_java.Native.Event.{Ref, Trace, rtc, rtc_send_message, rtc_receive_message}
use libdatachannel_java.Native.World.{World, Env}
use libdatachannel_java.Logic.Buffers.{Inside, IsReadable}
use libdatachannel_java.Channel.Transfer.{receive_message_into}
use libdatachannel_java.Channel.Transfer.Outcomes.Into as Into
use libdatachannel_java.Channel.Transfer.Outcomes.Into.{Result, Filled, receive_message_into-Filled}
use libdatachannel_java.Channel.Transfer.Ownership.{Fits-Inside}

-- Whenever a message was handed to rtc or a buffer for one, it was inside a direct buffer.
abbrev pub InBounds : Trace → Type 0
InBounds [] = Unit {0}
InBounds (rtc (rtc_send_message c p n) r ∷ t) = InBounds t × IsReadable t p n
InBounds (rtc (rtc_receive_message c (some p) n) r ∷ t) = InBounds t × Inside t p n
InBounds (e ∷ t) = InBounds t

InBounds-at : {t u : Trace} → u ≡ t → InBounds t → InBounds u
InBounds-at e h = subst InBounds (sym e) h

Result-InBounds :
    {n size : ℤ} {t : Trace} {r : ℤ × World} → Result n size t r → InBounds t → InBounds r.1.trace
Result-InBounds (Into.nothing_available p e) h = InBounds-at e h
Result-InBounds (Into.too_small p e) h = InBounds-at e h
Result-InBounds (Into.received p e) h = InBounds-at e h
Result-InBounds (Into.refused x p a s c e) h = InBounds-at e h

Filled-InBounds :
    {channel offset capacity : ℤ} {env : Env} {t : Trace} {b : Option Ref} {r : ℤ × World}
    → Filled channel offset capacity env t b r
    → InBounds t
    → InBounds r.1.trace
Filled-InBounds (Into.no_buffer e) h = InBounds-at e h
Filled-InBounds (Into.not_direct b x e) h = InBounds-at e h
Filled-InBounds (Into.out_of_range b base k x n e) h = InBounds-at e h
Filled-InBounds (Into.asked b base k n f r) h = Result-InBounds r (h, Fits-Inside b base _ f)

-- Where all messages so far were in bounds, they are after rtcReceiveMessageInto, with any buffer,
-- offset and capacity: the number of bytes that rtc gets to write is not negative, and they lie
-- between the address that the JVM gave for the buffer and the end of its capacity.
pub receive_message_into-InBounds :
    (channel offset capacity : ℤ) (env : Env) (w : World) (b : Option Ref)
    → InBounds w.trace
    → InBounds (receive_message_into channel b offset capacity env w).1.trace
receive_message_into-InBounds channel offset capacity env w b h =
    Filled-InBounds (receive_message_into-Filled channel b offset capacity env w) h
