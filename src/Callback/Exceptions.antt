-- ===== src/Callback/Exceptions.antt =====
-- How many exceptions the functions of jni/src/callback.c throw.
use libdatachannel_java.Prelude.{Option, none, some, arith}
use libdatachannel_java.Native.Event.{Ptr, Ref}
use libdatachannel_java.Native.World.{Env}
use libdatachannel_java.Native.Calls
use libdatachannel_java.Native.Memory.{load_callback, store_callback}
use libdatachannel_java.Logic.Costs.{
  Costs-pure, Costs-read, Costs-ask, Costs-emit, Costs-free->>=, Costs-free->>,
}
use libdatachannel_java.Logic.Costs.Raises.{Raises, free-Raises, malloc-Raises}
use libdatachannel_java.Util.Exceptions.{fail-Raises}
use libdatachannel_java.Callback.{
  allocate_callback, start_callback, fill_callback, finish_callback, free_callback,
}

-- The structure of a listener: one exception where there is none.
finish_callback-Raises :
    {env : Env} (cb : Ptr) (g : Option Ref) → Raises 1 env (finish_callback cb g)
unfolding finish_callback store_callback
finish_callback-Raises cb (some g) =
    Costs-free->> (record { within = λ w. omega arith }) (Costs-pure _)
finish_callback-Raises cb none =
    Costs-free->> (record { within = λ w. omega arith })
      (Costs-free->> (free-Raises _) (fail-Raises _ none))

pub allocate_callback-Raises :
    {env : Env} (listener : Option Ref) → Raises 1 env (allocate_callback listener)
unfolding allocate_callback start_callback fill_callback store_callback Calls.get_java_vm
    Calls.new_global_ref
allocate_callback-Raises listener = Costs-free->>= (Costs-read _) λ size.
    Costs-free->>= (malloc-Raises size) (elim [
      | none ↦ fail-Raises _ none
      | some cb ↦ Costs-free->>= (Costs-ask _ _ (λ _. omega arith)) λ vm.
          Costs-free->> (record { within = λ w. omega arith })
            (Costs-free->>= (Costs-ask _ _ (λ _. omega arith)) λ g. finish_callback-Raises cb g)
    ])

pub free_callback-Raises : {env : Env} (cb : Ptr) → Raises 0 env (free_callback cb)
unfolding free_callback load_callback Calls.delete_global_ref
free_callback-Raises cb =
    Costs-free->>= (record { within = λ w. omega arith })
      λ c. Costs-free->> (Costs-emit _ (omega arith)) (free-Raises (some cb))
