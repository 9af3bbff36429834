-- ===== src/Arch/Lookups.antt =====
-- The registry over any calls.
use cautreo.Arch.{
  ArchOps, Registry, find_id, arch_register, register_builtins, arch_detect, length, has_id, Bool,
  is_complete, deepseek4_ops, arch_by_id, max_registered, leb, kimi_k3_ops, arch_count, glm_5_2_ops,
}
use cautreo.Base.{
  ℕ, zero, suc, true, false, none, some, [], ◌∷◌, ◌≤◌, arith, inl, inr, Option, List, ◌≡◌,
  get_elem?, Bool-cases, ◌++◌, if◌then◌else◌, ◌⊎◌, length-append, subst,
}

pub data Call : Type 0 where
  registers : Option ArchOps → Call
  detects : Option (List ℕ) → Call
  looks_up : ℕ → Call
  counts : Call

abbrev pub call : Call → Registry → Registry
call (registers o) r = (arch_register r o).0
call (detects name) r = (arch_detect r name).0
call (looks_up id) r = (arch_by_id r id).0
call counts r = (arch_count r).0

abbrev pub calls : List Call → Registry → Registry
calls [] r = r
calls (c ∷ cs) r = calls cs (call c r)

abbrev pub empty_registry : Registry
empty_registry = record { registered = []; builtins_loaded = false }

-- No more than there is room for, and each table found under its number.
record Sound (r : Registry) : Type 0 where
  small : length r.registered ≤ max_registered
  found :
      (j : ℕ) (o : ArchOps)
      → get_elem? r.registered j ≡ some o
      → (is_complete o ≡ true) × (find_id o.id r.registered ≡ some o)

-- What was found is found again.
abbrev Keeps : Registry → Registry → Type 0
Keeps r r' =
    (id : ℕ) (o : ArchOps) → find_id id r.registered ≡ some o → find_id id r'.registered ≡ some o

find_id-append :
    (id : ℕ) (os ps : List ArchOps) (o : ArchOps)
    → find_id id os ≡ some o
    → find_id id (os ++ ps) ≡ some o
unfolding find_id
find_id-append id [] ps o h = absurd (ground arith)
find_id-append id (x ∷ os) ps o h = ground (arith, find_id-append id os ps o)

find_id-end :
    (o : ArchOps) (os : List ArchOps)
    → has_id o.id os ≡ false
    → find_id o.id (os ++ (o ∷ [])) ≡ some o
unfolding find_id has_id
find_id-end o [] h = ground arith
find_id-end o (x ∷ os) h = ground (arith, find_id-end o os, h)

get_elem?-end :
    (os : List ArchOps) (o x : ArchOps) (j : ℕ)
    → get_elem? (os ++ (o ∷ [])) j ≡ some x
    → (get_elem? os j ≡ some x) ⊎ (o ≡ x)
get_elem?-end [] o x zero h = inr (ground arith)
get_elem?-end [] o x (suc j) h = absurd (ground arith)
get_elem?-end (y ∷ os) o x zero h = inl h
get_elem?-end (y ∷ os) o x (suc j) h = get_elem?-end os o x j h

abbrev Both : Registry → Registry → Type 0
Both r r' = Sound r' × Keeps r r'

Both-trans : (a b c : Registry) → Both a b → Both b c → Both a c
Both-trans a b c (s, k) (t, l) = (t, (λ id o h. l id o (k id o h)))

Both-if : (r x y : Registry) (t : Bool) → Both r x → Both r y → Both r (if t then x else y)
Both-if r x y true p q = p
Both-if r x y false p q = q

append-Both :
    (r : Registry) (o : ArchOps)
    → Sound r
    → is_complete o ≡ true
    → leb max_registered (length r.registered) ≡ false
    → has_id o.id r.registered ≡ false
    → Both r (record r { registered = r.registered ++ (o ∷ []) })
append-Both r o s complete room new = (
  record {
    small = ground (arith, room, length-append r.registered (o ∷ []));
    found = λ j x h. elim (get_elem?-end r.registered o x j h) [
      | inl before ↦ (
        (s.found j x before).0,
        find_id-append x.id r.registered (o ∷ []) x (s.found j x before).1,
      )
      | inr same ↦
          subst (λ y. (is_complete y ≡ true) × (find_id y.id (r.registered ++ (o ∷ [])) ≡ some y))
            same (complete, find_id-end o r.registered new)
    ];
  },
  (λ id x h. find_id-append id r.registered (o ∷ []) x h),
)

register-Both : (r : Registry) (o : Option ArchOps) → Sound r → Both r (arch_register r o).0
unfolding arch_register
register-Both r none s = (s, (λ id o h. h))
register-Both r (some o) s = elim (Bool-cases (is_complete o)) [
  | inr partial ↦ rw (partial, arch_register) (s, (λ id o h. h))
  | inl complete ↦ elim (Bool-cases (leb max_registered (length r.registered))) [
    | inl full ↦ rw (complete, arch_register) (rw (full, arch_register) (s, (λ id o h. h)))
    | inr room ↦ elim (Bool-cases (has_id o.id r.registered)) [
      | inl known ↦
          rw (complete, arch_register)
            (rw (room, arch_register) (rw (known, arch_register) (s, (λ id o h. h))))
      | inr new ↦
          rw (complete, arch_register)
            (rw (room, arch_register)
              (rw (new, arch_register) (append-Both r o s complete room new)))
    ]
  ]
]

builtins-Both : (r : Registry) → Sound r → Both r (register_builtins r)
unfolding register_builtins
builtins-Both r s =
    let loaded : Registry = record r { builtins_loaded = true } in
    let one : Registry = (arch_register loaded (some deepseek4_ops)).0 in
    let two : Registry = (arch_register one (some kimi_k3_ops)).0 in
    let three : Registry = (arch_register two (some glm_5_2_ops)).0 in
    let start : Both r loaded = (record { small = s.small; found = s.found }, (λ id o h. h)) in
    let a = register-Both loaded (some deepseek4_ops) start.0 in
    let b = register-Both one (some kimi_k3_ops) a.0 in
    let c = register-Both two (some glm_5_2_ops) b.0 in
    Both-if r r three r.builtins_loaded (s, (λ id o h. h))
      (Both-trans r loaded three start
        (Both-trans loaded one three a (Both-trans one two three b c)))

call-Both : (c : Call) (r : Registry) → Sound r → Both r (call c r)
unfolding arch_detect arch_by_id arch_count
call-Both (registers o) r s = register-Both r o s
call-Both (detects none) r s = (s, (λ id o h. h))
call-Both (detects (some name)) r s = builtins-Both r s
call-Both (looks_up id) r s = builtins-Both r s
call-Both counts r s = builtins-Both r s

calls-Both : (cs : List Call) (r : Registry) → Sound r → Both r (calls cs r)
calls-Both [] r s = (s, (λ id o h. h))
calls-Both (c ∷ cs) r s =
    let first = call-Both c r s in
    Both-trans r (call c r) (calls cs (call c r)) first (calls-Both cs (call c r) first.0)

empty-Sound : Sound empty_registry
empty-Sound = record { small = omega arith; found = λ j o h. absurd (ground (arith, h)) }

-- After any calls from the start there are at most 16 tables in the registry, and each has a name, `create` and
-- `forward`; whatever calls follow, a lookup by the number of such a table gives that very table.
pub arch_by_id-registered :
    (cs ds : List Call) (j : ℕ) (o : ArchOps)
    → get_elem? (calls cs empty_registry).registered j ≡ some o
    → (length (calls cs empty_registry).registered ≤ max_registered)
      × (is_complete o ≡ true)
      × ((arch_by_id (calls ds (calls cs empty_registry)) o.id).1 ≡ some o)
unfolding arch_by_id
arch_by_id-registered cs ds j o h =
    let (s, _) = calls-Both cs empty_registry empty-Sound in
    let (t, kept) = calls-Both ds (calls cs empty_registry) s in
    let (_, kept_on) = builtins-Both (calls ds (calls cs empty_registry)) t in
    (s.small, (s.found j o h).0, kept_on o.id o (kept o.id o (s.found j o h).1))
