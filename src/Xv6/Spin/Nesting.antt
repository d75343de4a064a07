-- ===== src/Xv6/Spin/Nesting.antt =====
-- Matched calls of `pushcli` and `popcli` (A5/xv6-public/spinlock.c).
use native.Mathlib.Decide.{ℕ_discrete}
use mathlib.Core.Path.{fun_ext, subst, ◌∙◌, sym, ap}
use oscassignments.Base.{
  ℕ, ◌+◌, ◌-◌, ◌≡◌, ◌≢◌, refl, Bool, false, ◌&&◌, ◌==◌, if◌then◌else◌, List, [], ◌∷◌, ◌++◌, arith,
}
use oscassignments.Xv6.Types.{Result, ok, panic, ◌>>=◌}
use oscassignments.Xv6.Spin.{Cpu, pushcli, popcli, Call, run}

-- Interrupts are off as long as a call of `pushcli` is open.
abbrev pub Quiet : Cpu → Type 0
Quiet c = c.ncli ≢ 0 → c.interrupts ≡ false

-- Each `popcli` undoes a `pushcli` of the run.
pub data Matched : List Call → Type 0 where
  nothing : Matched []
  around :
      (inside after : List Call)
      → Matched inside
      → Matched after
      → Matched (Call.push ∷ (inside ++ (Call.pop ∷ after)))

-- All is as before, but for `intena` outside every call.
abbrev pub Restored : Cpu → Cpu → Type 0
Restored c d =
    (d.ncli ≡ c.ncli) × (d.interrupts ≡ c.interrupts) × (c.ncli ≢ 0 → d.intena ≡ c.intena)

abbrev pub Undone : Cpu → Result Cpu → Type 0
Undone c (ok d) = Restored c d
Undone c (panic e) = ⊥

Undone-then : (c d : Cpu) (r : Result Cpu) → Restored c d → Undone d r → Undone c r
Undone-then c d (ok e) h k = (k.0 ∙ h.0, k.1 ∙ h.1, λ ne. k.2 (λ z. ne (sym h.0 ∙ z)) ∙ h.2 ne)
Undone-then c d (panic e) h k = k

abbrev cpu_of : ℕ → Bool → Bool → Cpu
cpu_of n i f = record { ncli = n; intena = i; interrupts = f }

-- Inside a call of `pushcli` nothing is left open.
Restored-same : (c d : Cpu) → c.ncli ≢ 0 → Restored c d → d ≡ c
Restored-same c d ne h =
    ap (λ n. cpu_of n d.intena d.interrupts) h.0
    ∙ ap (λ i. cpu_of c.ncli i d.interrupts) (h.2 ne)
    ∙ ap (λ f. cpu_of c.ncli c.intena f) h.1

old_flag : (n : ℕ) (i f : Bool) → (n ≢ 0 → f ≡ false) → (n == 0 && (if n == 0 then f else i)) ≡ f
old_flag n i f q = elim (ℕ_discrete n 0) [
  | yes z ↦ rw z refl
  | no ne ↦ let e = q ne in ground arith
]

-- `popcli` right after `pushcli` restores the state.
pub popcli-pushcli : (c : Cpu) → Quiet c → Undone c (popcli (pushcli c))
unfolding pushcli popcli
popcli-pushcli c q =
    let e1 : (c.ncli + 1 == 0) ≡ false = ground arith in
    let e2 : c.ncli + 1 - 1 ≡ c.ncli = omega arith in
    rw (e1, e2) (refl, old_flag c.ncli c.intena c.interrupts q, λ ne. ground arith)

bind_assoc :
    (r : Result Cpu) (f g : Cpu → Result Cpu) → (r >>= (λ x. f x >>= g)) ≡ ((r >>= f) >>= g)
bind_assoc (ok x) f g = refl
bind_assoc (panic e) f g = refl

run-append : (xs ys : List Call) (c : Cpu) → run (xs ++ ys) c ≡ (run xs c >>= run ys)
unfolding run
run-append [] ys c = refl
run-append (Call.push ∷ xs) ys c = run-append xs ys (pushcli c)
run-append (Call.pop ∷ xs) ys c =
    ap (λ (f : Cpu → Result Cpu). popcli c >>= f) (fun_ext (λ d. run-append xs ys d))
    ∙ bind_assoc (popcli c) (run xs) (run ys)

Restored-Quiet : (c d : Cpu) → Restored c d → Quiet c → Quiet d
Restored-Quiet c d h q ne = h.1 ∙ q (λ z. ne (h.0 ∙ z))

pushed : (c : Cpu) → (pushcli c).ncli ≢ 0
unfolding pushcli
pushed c = λ e. omega arith

pushed-Quiet : (c : Cpu) → Quiet (pushcli c)
unfolding pushcli
pushed-Quiet c = λ ne. refl

then_after :
    (c : Cpu) (after : List Call) (r : Result Cpu)
    → Quiet c
    → Undone c r
    → ((d : Cpu) → Quiet d → Undone d (run after d))
    → Undone c (r >>= run after)
then_after c after (panic e) q h later = h
then_after c after (ok d) q h later =
    Undone-then c d (run after d) h (later d (Restored-Quiet c d h q))

after_inside :
    (c : Cpu) (after : List Call) (r : Result Cpu)
    → Quiet c
    → Undone (pushcli c) r
    → ((d : Cpu) → Quiet d → Undone d (run after d))
    → Undone c (r >>= run (Call.pop ∷ after))
unfolding run
after_inside c after (panic e) q h later = h
after_inside c after (ok d) q h later =
    rw (Restored-same (pushcli c) d (pushed c) h)
      (then_after c after (popcli (pushcli c)) q (popcli-pushcli c q) later)

-- Any run of matched calls of `pushcli` and `popcli`, nested to any depth, ends without a panic, with
-- the interrupt flag and the depth of nesting that it began with. Interrupts are off at the start if a
-- call is open there.
pub run_lem : (calls : List Call) (c : Cpu) → Matched calls → Quiet c → Undone c (run calls c)
unfolding run
run_lem _ c nothing q = (refl, refl, λ ne. refl)
run_lem _ c (around inside after m k) q =
    subst (Undone c) (sym (run-append inside (Call.pop ∷ after) (pushcli c))) (
      after_inside c after (run inside (pushcli c)) q
        (run_lem inside (pushcli c) m (pushed-Quiet c)) (λ d. run_lem after d k))
