-- ===== src/Peer/Create/Exceptions.antt =====
-- How many exceptions rtcCreatePeerConnection throws.
use libdatachannel_java.Prelude.{◌+◌, ◌≤◌, ◌≡◌, refl, sym, ap, ◌∙◌, Option, [], ◌∷◌, arith}
use libdatachannel_java.Prelude.Int.{ℤ}
use libdatachannel_java.Native.Event.{Ref, RtcField, Event, Trace}
use libdatachannel_java.Native.World.{World, Env}
use libdatachannel_java.Logic.Costs.{cost}
use libdatachannel_java.Logic.Costs.Raises.{raises, Raises}
use libdatachannel_java.Logic.Story.{told, Reading, unread, length, element, chars, Reading-Lends}
use libdatachannel_java.Peer.Servers.Reading.{Served-Reading}
use libdatachannel_java.Peer.Create.{PeerOptions, create_peer_connection}
use libdatachannel_java.Peer.Create.Arguments.{
  Created, created, failed, create_peer_connection-Created,
}

cost-told : (t : Trace) → cost raises (told t) ≡ cost raises t
cost-told [] = refl
cost-told (Event.get_array_length a n ∷ t) = let h = cost-told t in omega arith
cost-told (Event.get_object_array_element a i s ∷ t) = let h = cost-told t in omega arith
cost-told (Event.get_string_utf_chars s p ∷ t) = let h = cost-told t in omega arith
cost-told (Event.rtc c n ∷ t) = let h = cost-told t in omega arith
cost-told (Event.throw e ∷ t) = let h = cost-told t in omega arith
cost-told (e ∷ t) = let h = cost-told t in omega arith

Reading-cost : {t t' : Trace} → Reading t t' → cost raises t' ≡ cost raises t
Reading-cost unread = refl
Reading-cost (length a n r) = let h = Reading-cost r in omega arith
Reading-cost (element a i s r) = let h = Reading-cost r in omega arith
Reading-cost (chars s p r) = let h = Reading-cost r in omega arith

Created-cost :
    (t : Trace) {field : RtcField → ℤ → ℤ} {o : PeerOptions}
    {array proxy_server bind_address : Option Ref} (r : ℤ × World)
    → Created field o array proxy_server bind_address (told t) r
    → cost raises r.1.trace ≤ 1 + cost raises t
Created-cost t (_, w) (created s p b n v l l' e) =
    let read = Reading-cost (Reading-Lends (Reading-Lends (Served-Reading v) l) l') in
    let before = cost-told t in
    let after = sym (cost-told w.trace) ∙ ap (cost raises) e in omega arith
Created-cost t (_, w) (failed x v e) =
    let read = Reading-cost v in
    let before = cost-told t in
    let after = sym (cost-told w.trace) ∙ ap (cost raises) e in omega arith

pub create_peer_connection-Raises :
    {env : Env} (o : PeerOptions) (proxy_server bind_address array : Option Ref)
    → Raises 1 env (create_peer_connection o proxy_server bind_address array)
create_peer_connection-Raises {env} o proxy_server bind_address array = record {
  within = λ w.
      Created-cost w.trace _
        (create_peer_connection-Created o array proxy_server bind_address env w);
}
