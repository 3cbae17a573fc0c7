-- ===== src/Native/Memory.antt =====
-- Access to the static variables, the thread's variable and the structures behind pointers. An
-- access through a pointer leaves an event, so that the ledger can tell whether it was allowed.
use libdatachannel_java.Prelude.{ℕ, Option, ◌∷◌}
use libdatachannel_java.Native.Event.{Ptr, load, store}
use libdatachannel_java.Native.World.{M, JvmCallback, ThreadAttachment, update}

unfoldable pub load_callback : Ptr → M JvmCallback
load_callback p env w = (w.callbacks p, record w { trace = load p ∷ w.trace })

unfoldable pub store_callback : Ptr → (JvmCallback → JvmCallback) → M (Unit {0})
store_callback p change env w = (
  tt,
  record w { callbacks = update w.callbacks p (change (w.callbacks p)); trace = store p ∷ w.trace },
)

unfoldable pub load_attachment : Ptr → M ThreadAttachment
load_attachment p env w = (w.attachments p, record w { trace = load p ∷ w.trace })

unfoldable pub store_attachment : Ptr → (ThreadAttachment → ThreadAttachment) → M (Unit {0})
store_attachment p change env w = (
  tt,
  record w {
    attachments = update w.attachments p (change (w.attachments p));
    trace = store p ∷ w.trace;
  },
)

unfoldable pub get_attachment : M ThreadAttachment
get_attachment env w = (w.attachment, w)

unfoldable pub set_attachment : ThreadAttachment → M (Unit {0})
set_attachment a env w = (tt, record w { attachment = a })

unfoldable pub get_attachment_key : M (Option ℕ)
get_attachment_key env w = (w.attachment_key, w)

unfoldable pub set_attachment_key : Option ℕ → M (Unit {0})
set_attachment_key k env w = (tt, record w { attachment_key = k })
