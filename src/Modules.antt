-- ===== src/Modules.antt =====
-- sophon/src/modules and libs/kernel-module: the table of kernel modules, and calls to a module by its
-- name. The state is that of the process manager and of the other modules (`A`); the code of a module
-- is its handler.
pub mod Syscalls
pub mod Registering
pub mod Processes
pub mod Sync
mod Examples
use sophon_rpi_cross.Base.{
  ℕ, Bool, true, false, Option, none, some, List, [], ◌∷◌, Outcome, done, panic, index_out_of_range,
  ◌>>=◌, unwrap, if◌then◌else◌, ltb, update, length,
}
use sophon_rpi_cross.Base.Text.{Text, text_eq}
use sophon_rpi_cross.Kernel.{Kernel, disable, enable, is_enabled}
use sophon_rpi_cross.Requests.{RawModuleRequest, from_buf}

pub record System (A : Type 0) : Type 0 where
  pub kernel : Kernel
  pub rest : A

-- The call returns to its caller (`none` is -1), or the core goes to another task.
pub data Reply (A : Type 0) : Type 0 where
  returns : Option ℕ → System A → Reply A
  switches : ℕ → System A → Reply A

-- `ModuleCallHandler`
abbrev pub Handler : Type 0 → Type 0
Handler A = Bool → RawModuleRequest → System A → Outcome (Reply A)

-- A module that is registered: whether it has a handler, and which.
pub record KernelModule (A : Type 0) : Type 0 where
  pub name : Text
  pub call : Option (Handler A)

abbrev pub max_modules : ℕ
max_modules = 256

-- `MODULES` and `MODULE_NAMES`
pub record Registry (A : Type 0) : Type 0 where
  pub modules : ℕ → Option (KernelModule A)
  pub names : List (Text × ℕ)

-- `names.get(name)`
abbrev pub id_of : Text → List (Text × ℕ) → Option ℕ
id_of name [] = none
id_of name (e ∷ es) = let rest = id_of name es in if text_eq e.0 name then some e.1 else rest

-- The core that runs; the kernel has one.
abbrev pub this_core : ℕ
this_core = 0

module _ {A : Type 0} where
  -- `register_module_call_handler` of the service of module `id`.
  unfoldable pub register_module_call_handler : ℕ → Handler A → Registry A → Registry A
  register_module_call_handler id handler r = record r {
    modules =
        update r.modules id
          (elim (r.modules id) [ none ↦ none | some m ↦ some (record m { call = some handler }) ]);
  }

  -- The part of `register` under the locks: the slot of the new module, unless there is one of the name.
  unfoldable pub add_module : Text → Registry A → Outcome (Option ℕ × Registry A)
  add_module name r =
      let id = length r.names in
      let added =
        if ltb id max_modules
        then done (
          some id,
          record {
            modules = update r.modules id (some (record { name = name; call = none }));
            names = (name, id) ∷ r.names;
          },
        )
        else panic index_out_of_range in
      elim (id_of name r.names) [ some _ ↦ done (none, r) | none ↦ added ]

  -- `register_module_call`: a module whose requests are of the type `!` has no handler.
  unfoldable pub register_module_call : ℕ → Option (Handler A) → Registry A → Registry A
  unfolding register_module_call_handler
  register_module_call id none r = r
  register_module_call id (some handler) r = register_module_call_handler id handler r

  -- `register`, where the module starts with `init_kernel_module`.
  unfoldable pub register : Text → Option (Handler A) → Registry A → Outcome (Registry A)
  unfolding add_module register_module_call
  register name handler r = do
    (started, r') ← add_module name r
    done (elim started [ none ↦ r' | some id ↦ register_module_call id handler r' ])

  -- The guard of `uninterruptible` is dropped where the call returns.
  abbrev pub drop_guard : Bool → Reply A → Reply A
  drop_guard enabled (returns v w) =
      returns v (if enabled then record w { kernel = enable this_core w.kernel } else w)
  drop_guard enabled (switches t w) = switches t w

  abbrev pub masked : System A → System A
  masked w =
      if is_enabled this_core w.kernel then record w { kernel = disable this_core w.kernel } else w

  abbrev pub call_slot :
      Option (KernelModule A) → Bool → RawModuleRequest → System A → Outcome (Reply A)
  call_slot none privileged request w = done (returns none w)
  call_slot (some m) privileged request w = elim m.call [
    | none ↦ done (returns none w)
    | some handler ↦ handler privileged request w
  ]

  -- `raw_module_call`
  unfoldable pub raw_module_call : Registry A → Text → Bool → List ℕ → System A → Outcome (Reply A)
  unfolding from_buf
  raw_module_call r name privileged args w = do
    id ← unwrap (id_of name r.names)
    slot ← if ltb id max_modules then done (r.modules id) else panic index_out_of_range
    request ← from_buf args
    reply ← call_slot slot privileged request (masked w)
    done (drop_guard (is_enabled this_core w.kernel) reply)
