-- ===== src/Modules/Registering.antt =====
-- Registering kernel modules, in sophon/src/modules/mod.rs.
use sophon_rpi_cross.Base.{
  ℕ, suc, ◌<◌, ◌≡◌, ◌≢◌, refl, sym, ap, ◌∙◌, Bool, Option, none, some, List, ◌∷◌, Outcome, done,
  panic, unwrap_none, ◌>>=◌, lt→ltb, ◌==◌, ==→eq, ==→ne, update, update_self, update_ne, length,
  arith, Bool-cases, inl, inr,
}
use sophon_rpi_cross.Base.Text.{Text, text_eq, text_eq→eq, text_eq_refl}
use sophon_rpi_cross.Kernel.{is_enabled}
use sophon_rpi_cross.Requests.{RawModuleRequest, from_buf, as_buf}
use sophon_rpi_cross.Modules.{
  System, Reply, Handler, KernelModule, Registry, id_of, max_modules, this_core, register,
  add_module, register_module_call, register_module_call_handler, raw_module_call, call_slot,
  masked, drop_guard,
}

-- Ids are given out in order, every id below their number is a module's, and each name has its own.
pub record Numbered {A : Type 0} (r : Registry A) : Type 0 where
  pub below : (name : Text) (id : ℕ) → id_of name r.names ≡ some id → id < length r.names
  pub few : length r.names < suc max_modules
  pub present : (id : ℕ) → id < length r.names → (m : KernelModule A) × (r.modules id ≡ some m)

other_id :
    (name other : Text) (id : ℕ) (names : List (Text × ℕ))
    → name ≢ other
    → id_of other ((name, id) ∷ names) ≡ id_of other names
other_id name other id names ne = elim (Bool-cases (text_eq name other)) [
  | inl y ↦ absurd (ne (text_eq→eq name other y))
  | inr n ↦ rw n refl
]

own_id :
    (name : Text) (id : ℕ) (names : List (Text × ℕ)) → id_of name ((name, id) ∷ names) ≡ some id
own_id name id names = rw (text_eq_refl name) refl

-- The table after a new module has been registered.
abbrev with_module : {A : Type 0} → Text → Option (Handler A) → Registry A → Registry A
with_module name call r = record {
  modules = update r.modules (length r.names) (some (record { name = name; call = call }));
  names = (name, length r.names) ∷ r.names;
}

module _ {A : Type 0} where
  add-fresh :
      (name : Text) (r : Registry A)
      → id_of name r.names ≡ none
      → length r.names < max_modules
      → add_module name r ≡ done (some (length r.names), with_module name none r)
  unfolding add_module
  add-fresh name r fresh room = ground (arith, fresh, room)

  register-add :
      (name : Text) (call : Option (Handler A)) (r r' : Registry A) (id : ℕ)
      → add_module name r ≡ done (some id, r')
      → register name call r ≡ done (register_module_call id call r')
  unfolding register
  register-add name call r r' id e = rw e refl

  handler_set :
      (name : Text) (call : Option (Handler A)) (r : Registry A) (id : ℕ)
      → r.modules id ≡ some (record { name = name; call = none })
      → ((register_module_call id call r).names ≡ r.names)
        × ((register_module_call id call r).modules id ≡ some (record { name = name; call = call }))
        × ((i : ℕ) → i ≢ id → (register_module_call id call r).modules i ≡ r.modules i)
  unfolding register_module_call register_module_call_handler
  handler_set name none r id e = (refl, e, λ i ne. refl)
  handler_set name (some h) r id e = (
    refl,
    update_self r.modules id _ ∙ rw e refl,
    λ i ne. update_ne r.modules id i _ (λ z. ne (sym z)),
  )

  register-fresh :
      (name : Text) (call : Option (Handler A)) (r : Registry A)
      → id_of name r.names ≡ none
      → length r.names < max_modules
      → (r' : Registry A) × (register name call r ≡ done r')
        × (r'.names ≡ (name, length r.names) ∷ r.names)
        × (r'.modules (length r.names) ≡ some (record { name = name; call = call }))
        × ((id : ℕ) → id ≢ length r.names → r'.modules id ≡ r.modules id)
  register-fresh name call r fresh room =
      let id = length r.names in
      let added = with_module name none r in
      let (names, own, others) =
        handler_set name call added id
          (update_self r.modules id (some (record { name = name; call = none }))) in
      (
        register_module_call id call added,
        register-add name call r added id (add-fresh name r fresh room),
        names,
        own,
        λ i ne. others i ne ∙ update_ne r.modules id i _ (λ z. ne (sym z)),
      )

  -- What a call to the module in a slot comes to.
  abbrev pub called :
      Option (KernelModule A) → Bool → RawModuleRequest → System A → Outcome (Reply A)
  called slot privileged request w = do
    reply ← call_slot slot privileged request (masked w)
    done (drop_guard (is_enabled this_core w.kernel) reply)

  pub call_known :
      (r : Registry A) (name : Text) (id : ℕ) (privileged : Bool) (request : RawModuleRequest)
      (w : System A)
      → id_of name r.names ≡ some id
      → id < max_modules
      → raw_module_call r name privileged (as_buf request) w
        ≡ called (r.modules id) privileged request w
  unfolding raw_module_call from_buf as_buf
  call_known r name id privileged request w known room = rw (known, lt→ltb id max_modules room) refl

  pub call_unknown :
      (r : Registry A) (name : Text) (privileged : Bool) (args : List ℕ) (w : System A)
      → id_of name r.names ≡ none
      → raw_module_call r name privileged args w ≡ panic unwrap_none
  unfolding raw_module_call
  call_unknown r name privileged args w unknown = rw unknown refl

  below_cons :
      {r : Registry A}
      → Numbered r
      → (name other : Text) (id : ℕ) {n : ℕ}
      → id_of other ((name, length r.names) ∷ r.names) ≡ some id
      → n ≡ suc (length r.names)
      → id < n
  below_cons {r = r} num name other id e longer = elim (Bool-cases (text_eq name other)) [
    | inl y ↦
        (let last : length r.names ≡ id =
            cc (own_id name (length r.names) r.names, e, text_eq→eq name other y) in
          omega (arith, last, longer))
    | inr n ↦
        (let old = num.below other id (
            sym (
              other_id name other (length r.names) r.names
                (λ same. absurd (cc (n, text_eq_refl name, same))))
            ∙ e) in
          omega (arith, old, longer))
  ]

  register-Numbered :
      (name : Text) (call : Option (Handler A)) (r r' : Registry A)
      → Numbered r
      → length r.names < max_modules
      → r'.names ≡ (name, length r.names) ∷ r.names
      → r'.modules (length r.names) ≡ some (record { name = name; call = call })
      → ((id : ℕ) → id ≢ length r.names → r'.modules id ≡ r.modules id)
      → Numbered r'
  register-Numbered name call r r' num room names own others =
      let longer : length r'.names ≡ suc (length r.names) = ap length names in
      record {
        below =
            λ other id e. below_cons num name other id (sym (ap (id_of other) names) ∙ e) longer;
        few = omega (arith, longer, room);
        present = λ id lt. elim (Bool-cases (id == length r.names)) [
          | inl y ↦ (
            record { name = name; call = call },
            ap r'.modules (==→eq id (length r.names) y) ∙ own,
          )
          | inr n ↦
              (let ne = ==→ne id (length r.names) n in
                let (m, e) = num.present id (omega (arith, lt, longer, ne)) in
                (m, others id ne ∙ e))
        ];
      }

  -- Registering a module of a new name, with fewer than 256 modules so far, succeeds. Calls of that name
  -- then reach its handler, with interrupts off and with the request as it was made; calls of any other
  -- known name reach what they reached before.
  pub register_lem :
      (name : Text) (handler : Handler A) (r : Registry A)
      → Numbered r
      → id_of name r.names ≡ none
      → length r.names < max_modules
      → (r' : Registry A) × (register name (some handler) r ≡ done r')
        × Numbered r'
        × ((privileged : Bool) (request : RawModuleRequest) (w : System A)
            → raw_module_call r' name privileged (as_buf request) w ≡ (do
              reply ← handler privileged request (masked w)
              done (drop_guard (is_enabled this_core w.kernel) reply)))
        × ((other : Text) (id : ℕ) (privileged : Bool) (request : RawModuleRequest) (w : System A)
            → id_of other r.names ≡ some id
            → raw_module_call r' other privileged (as_buf request) w
              ≡ raw_module_call r other privileged (as_buf request) w)
  register_lem name handler r num fresh room =
      let (r', e, names, own, others) = register-fresh name (some handler) r fresh room in
      let last = length r.names in
      (
        r',
        e,
        register-Numbered name (some handler) r r' num room names own others,
        λ privileged request w.
            call_known r' name last privileged request w
              (ap (id_of name) names ∙ own_id name last r.names) room
            ∙ ap (λ slot. called slot privileged request w) own,
        λ other id privileged request w known.
            let below = num.below other id known in
            call_known r' other id privileged request w
              (ap (id_of other) names
                ∙ other_id name other last r.names (differ other id known)
                ∙ known)
              (omega (arith, below, room))
            ∙ ap (λ slot. called slot privileged request w)
                (others id (λ z. omega (arith, z, below)))
            ∙ sym (call_known r other id privileged request w known (omega (arith, below, room))),
      )
    where
      differ : (other : Text) (id : ℕ) → id_of other r.names ≡ some id → name ≢ other
      differ other id known same = absurd (cc (known, fresh, same))
