-- ===== src/Native/Calls.antt =====
-- Each call to the outside as a program: it asks the machine and leaves its event in the trace.
use libdatachannel_java.Prelude.{List, ℕ, Bool, Option, String}
use libdatachannel_java.Prelude.Int.{ℤ}
use libdatachannel_java.Native.Event.{
  Ptr, Ref, Event, Exception, Upcall, MiCall, Format, RtcCall, RtcReliability,
}
use libdatachannel_java.Native.World.{M, ask, emit}

unfoldable pub malloc : ℕ → M (Option Ptr)
malloc size = ask (λ env t. env.malloc t size) (Event.malloc size)

unfoldable pub free : Option Ptr → M (Unit {0})
free p = emit (Event.free p)

unfoldable pub get_array_length : Ref → M ℤ
get_array_length a = ask (λ env t. env.get_array_length t a) (Event.get_array_length a)

unfoldable pub get_object_array_element : Ref → ℕ → M (Option Ref)
get_object_array_element a i =
    ask (λ env t. env.get_object_array_element t a i) (Event.get_object_array_element a i)

unfoldable pub get_string_utf_chars : Ref → M (Option Ptr)
get_string_utf_chars s = ask (λ env t. env.get_string_utf_chars t s) (Event.get_string_utf_chars s)

unfoldable pub release_string_utf_chars : Option Ref → Option Ptr → M (Unit {0})
release_string_utf_chars s p = emit (Event.release_string_utf_chars s p)

unfoldable pub delete_local_ref : Option Ref → M (Unit {0})
delete_local_ref r = emit (Event.delete_local_ref r)

unfoldable pub new_global_ref : Option Ref → M (Option Ref)
new_global_ref r = ask (λ env t. env.new_global_ref t r) (Event.new_global_ref r)

unfoldable pub delete_global_ref : Option Ref → M (Unit {0})
delete_global_ref r = emit (Event.delete_global_ref r)

unfoldable pub new_string_utf : Ptr → M (Option Ref)
new_string_utf p = ask (λ env t. env.new_string_utf t p) (Event.new_string_utf p)

-- NewStringUTF of memory that the code has allocated itself.
unfoldable pub new_string_of_block : Ptr → M (Option Ref)
new_string_of_block p = ask (λ env t. env.new_string_utf t p) (Event.new_string_of_block p)

unfoldable pub new_direct_byte_buffer : Ptr → ℤ → M (Option Ref)
new_direct_byte_buffer p n =
    ask (λ env t. env.new_direct_byte_buffer t p n) (Event.new_direct_byte_buffer p n)

unfoldable pub get_direct_buffer_address : Ref → M (Option Ptr)
get_direct_buffer_address b =
    ask (λ env t. env.get_direct_buffer_address t b) (Event.get_direct_buffer_address b)

unfoldable pub get_direct_buffer_capacity : Ref → M ℤ
get_direct_buffer_capacity b =
    ask (λ env t. env.get_direct_buffer_capacity t b) (Event.get_direct_buffer_capacity b)

unfoldable pub throw : Exception → M (Unit {0})
throw e = emit (Event.throw e)

unfoldable pub upcall : Option Ref → Upcall → M (Unit {0})
upcall r u = emit (Event.upcall r u)

unfoldable pub java_allocate : ℤ → M (Option Ref)
java_allocate n = ask (λ env t. env.java_allocate t n) (Event.java_allocate n)

unfoldable pub parse_candidate_pair : Ptr → Ptr → M (Option Ref)
parse_candidate_pair l r =
    ask (λ env t. env.parse_candidate_pair t l r) (Event.parse_candidate_pair l r)

unfoldable pub create_reliability : RtcReliability → M (Option Ref)
create_reliability r = ask (λ env t. env.create_reliability t r) (Event.create_reliability r)

unfoldable pub rtc : RtcCall → M ℤ
rtc c = ask (λ env t. env.rtc t c) (Event.rtc c)

unfoldable pub set_user_pointer : ℤ → Option Ptr → M (Unit {0})
set_user_pointer h p = emit (Event.set_user_pointer h p)

unfoldable pub get_user_pointer : ℤ → M (Option Ptr)
get_user_pointer h = ask (λ env t. env.get_user_pointer t h) (Event.get_user_pointer h)

-- JavaVM
unfoldable pub vm_get_env : Ref → M ℤ
vm_get_env vm = ask (λ env t. env.vm_get_env t vm) (Event.vm_get_env vm)

unfoldable pub vm_attach_current_thread_as_daemon : Ref → M ℤ
vm_attach_current_thread_as_daemon vm =
    ask (λ env t. env.vm_attach t vm) (Event.vm_attach_current_thread_as_daemon vm)

unfoldable pub vm_detach_current_thread : Ref → M (Unit {0})
vm_detach_current_thread vm = emit (Event.vm_detach_current_thread vm)

-- The call answers with a code and, through its argument, with the JavaVM.
unfoldable pub get_java_vm : M (ℤ × Option Ref)
get_java_vm = ask (λ env t. (env.get_java_vm t, env.java_vm t)) (λ a. Event.get_java_vm a.0 a.1)

unfoldable pub find_class : String → M (Option Ref)
find_class name = ask (λ env t. env.find_class t name) (Event.find_class name)

-- OpenSSL, and the fiber-local storage of Windows
unfoldable pub crypto_get_mem_functions : M Bool
crypto_get_mem_functions = ask (λ env t. env.crypto_hooks_private t) Event.crypto_get_mem_functions

unfoldable pub crypto_set_mem_functions : M ℤ
crypto_set_mem_functions =
    ask (λ env t. env.crypto_set_mem_functions t) Event.crypto_set_mem_functions

unfoldable pub fls_alloc : M (Option ℕ)
fls_alloc = ask (λ env t. env.fls_alloc t) Event.fls_alloc

unfoldable pub fls_get_value : ℕ → M (Option Ptr)
fls_get_value key = ask (λ env t. env.fls_get_value t key) (Event.fls_get_value key)

unfoldable pub fls_set_value : ℕ → Option Ptr → M Bool
fls_set_value key p = ask (λ env t. env.fls_set_value t key p) (Event.fls_set_value key p)

unfoldable pub get_current_thread_id : M ℕ
get_current_thread_id = ask (λ env t. env.get_current_thread_id t) Event.get_current_thread_id

-- mimalloc, and formatting
unfoldable pub mi : MiCall → M (Option Ptr)
mi c = ask (λ env t. env.mi t c) (Event.mi c)

unfoldable pub mi_posix_memalign : (alignment size : ℕ) → M (ℤ × Option Ptr)
mi_posix_memalign alignment size =
    ask (λ env t. env.mi_posix_memalign t alignment size)
      (λ a. Event.mi_posix_memalign alignment size a.0 a.1)

unfoldable pub mi_free : Option Ptr → M (Unit {0})
mi_free p = emit (Event.mi_free p)

unfoldable pub mi_version : M ℕ
mi_version = ask (λ env t. env.mi_version t) Event.mi_version

unfoldable pub vsnprintf_l : Option Ptr → ℕ → Format → M ℤ
vsnprintf_l buffer size f =
    ask (λ env t. env.vsnprintf_l t buffer size f) (Event.vsnprintf_l buffer size f)

unfoldable pub snprintf : Ptr → ℕ → String → List ℕ → M ℤ
snprintf buffer size format numbers =
    ask (λ env t. env.snprintf t buffer size format numbers)
      (Event.snprintf buffer size format numbers)

unfoldable pub set_errno_enomem : M (Unit {0})
set_errno_enomem = emit Event.set_errno_enomem
