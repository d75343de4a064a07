-- ===== src/Xv6/Spin/Tests.antt =====
-- Nested calls on a processor with interrupts on.
use oscassignments.Base.{◌≡◌, refl, true, false, List, [], ◌∷◌, none, some}
use oscassignments.Xv6.Types.{ok, panic, Panic}
use oscassignments.Xv6.Spin.{Cpu, Call, run, acquire, holding, pushcli, popcli}
use oscassignments.Xv6.Spin.Nesting.{Matched, nothing, around, Undone, run_lem}

abbrev idle : Cpu
idle = record { ncli = 0; intena = false; interrupts = true }

abbrev twice : List Call
twice = Call.push ∷ Call.push ∷ Call.pop ∷ Call.pop ∷ []

twice-Matched : Matched twice
twice-Matched = around (Call.push ∷ Call.pop ∷ []) [] (around [] [] nothing nothing) nothing

run_lem_example : Undone idle (run twice idle)
run_lem_example = run_lem twice idle twice-Matched (λ ne. absurd (ne refl))

-- A processor that takes a lock twice stops the machine.
takes_twice : acquire 0 (record { locked = true; cpu = some 0 }) idle ≡ panic Panic.acquire
unfolding acquire holding pushcli popcli
takes_twice = refl

-- Another one spins, and after the release a processor has its interrupts back.
spins : acquire 1 (record { locked = true; cpu = some 0 }) idle ≡ ok none
unfolding acquire holding pushcli popcli
spins = refl
