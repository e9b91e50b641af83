-- ===== src/Process/Arguments.antt =====
-- src/task/process.c: the arguments that a process is started with. `mem` are the words of memory
-- and `bytes` its bytes.
use udemy_kernel.Prelude.{
  ℕ, ◌+◌, ◌*◌, Array, update, Result, ok, err, eio, enomem, List, [], ◌∷◌, ◌==◌, if◌then◌else◌,
}
use udemy_kernel.Str.{strncpy}
use udemy_kernel.PathParser.{Allocator}
use udemy_kernel.Task.{place}
use udemy_kernel.Process.{Process, process_malloc}

unfoldable pub process_get_arguments : Process → ℕ × ℕ
process_get_arguments p = (p.arguments.argc, p.arguments.argv)

-- The list of arguments, each the array of its 512 bytes.
unfoldable pub process_count_command_arguments : (root_argument : List Array) → ℕ
process_count_command_arguments [] = 0
process_count_command_arguments (current ∷ next) = process_count_command_arguments next + 1

module _ (A : Allocator) where
  -- The loop of `process_inject_arguments` from the argument `i` on: the result, with the process,
  -- the words, the bytes and the state of the allocator.
  unfoldable pub inject_loop :
      (argv i : ℕ)
      → (current : List Array) → Process
      → (mem bytes : Array) → A.State
      → Result (Unit {0}) × Process × Array × Array × A.State
  inject_loop argv i [] p mem bytes s = (ok tt, p, mem, bytes, s)
  inject_loop argv i (argument ∷ next) p mem bytes s =
      let (argument_str, p1, mem1, s1) = process_malloc A p 512 mem s in
      let copied =
        place bytes argument_str 512 (strncpy (λ j. bytes (argument_str + j)) argument 512) in
      let rest =
        inject_loop argv (i + 1) next p1 (update mem1 (argv + 4 * i) argument_str) copied s1 in
      if argument_str == 0 then (err enomem, p1, mem1, bytes, s1) else rest

  unfoldable pub process_inject_arguments :
      Process
      → (root_argument : List Array) → (mem bytes : Array) → A.State
      → Result (Unit {0}) × Process × Array × Array × A.State
  unfolding inject_loop process_count_command_arguments
  process_inject_arguments p root_argument mem bytes s =
      let argc = process_count_command_arguments root_argument in
      let (argv, p1, mem1, s1) = process_malloc A p (4 * argc) mem s in
      let (res, p2, mem2, bytes2, s2) = inject_loop argv 0 root_argument p1 mem1 bytes s1 in
      let injected : Result (Unit {0}) × Process × Array × Array × A.State = elim res [
        | err e ↦ (err e, p2, mem2, bytes2, s2)
        | ok done ↦ (
          ok done,
          record p2 { arguments = record { argc = argc; argv = argv } },
          mem2,
          bytes2,
          s2,
        )
      ] in
      if argc == 0
      then (err eio, p, mem, bytes, s)
      else if argv == 0
      then (err enomem, p1, mem1, bytes, s1)
      else injected
