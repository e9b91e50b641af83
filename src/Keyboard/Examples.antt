-- ===== src/Keyboard/Examples.antt =====
-- Runs of the ring of src/keyboard/keyboard.c and of the tables of classic.c.
use udemy_kernel.Prelude.{◌≡◌, refl, some, [], ◌∷◌, arith}
use udemy_kernel.Keyboard.{KeyboardBuffer}
use udemy_kernel.Keyboard.Fifo.{IsQueue, pops-pushes, pops, pushes}

-- An empty ring whose next cell is the last of the buffer.
abbrev empty_ring : KeyboardBuffer
empty_ring = record { buffer = λ _. 0; tail = 1023; head = 1023 }

empty_IsQueue : IsQueue empty_ring []
empty_IsQueue = record { held = tt; rest = λ j lo hi. refl; count = omega arith; tail = refl }

pops-pushes_example :
    (pops (97 ∷ 98 ∷ []) (pushes (97 ∷ 98 ∷ []) (some empty_ring))).0 ≡ 97 ∷ 98 ∷ []
pops-pushes_example =
    pops-pushes empty_ring (97 ∷ 98 ∷ []) empty_IsQueue (omega arith, (omega arith, tt))
      (omega arith)
