-- ===== src/Task/Examples.antt =====
-- Three tasks at the addresses 8, 16 and 24, and a string that the first one sees at 0x400010.
use udemy_kernel.Prelude.{
  ℕ, ◌+◌, ◌-◌, ◌*◌, ◌/◌, ◌≤◌, ◌≡◌, ◌&&◌, refl, Array, some, List, [], ◌∷◌, arith, ltb, leb, ◌==◌,
  if◌then◌else◌,
}
use udemy_kernel.PathParser.{Allocator}
use udemy_kernel.Task.{Tasks, zero_task, task_link, task_list_remove}
use udemy_kernel.Task.List.{IsQueue, link-IsQueue, turns, turn_comes}
use udemy_kernel.Task.List.Remove.{Forward, list_remove_lem, list_remove_stale}

abbrev three_tasks : Tasks
three_tasks = record {
  current_task = 16;
  task_tail = 24;
  task_head = 8;
  paging = 0;
  at = λ a.
      if a == 8
      then record zero_task { page_directory = 4; next = 16 }
      else if a == 16
      then record zero_task { next = 24; prev = 8 }
      else if a == 24
      then record zero_task { prev = 16 }
      else zero_task;
}

abbrev queue : List ℕ
queue = 8 ∷ 16 ∷ 24 ∷ []

three-IsQueue : IsQueue three_tasks queue
three-IsQueue = record {
  head = refl;
  tail = refl;
  linked = (
    omega arith,
    refl,
    refl,
    (omega arith, (omega arith, tt)),
    (omega arith, refl, refl, (omega arith, tt), (omega arith, refl, refl, tt, tt)),
  );
}

link-IsQueue_example : IsQueue (task_link three_tasks 32) (8 ∷ 16 ∷ 24 ∷ 32 ∷ [])
link-IsQueue_example =
    link-IsQueue three_tasks queue 32 three-IsQueue (omega arith)
      (omega arith, (omega arith, (omega arith, tt))) refl refl

turn_comes_example :
    (k : ℕ) × (k ≤ 6)
    × (ts' : Tasks) × (turns k three_tasks ≡ some ts')
    × (ts'.current_task ≡ 8)
    × IsQueue ts' queue
turn_comes_example = turn_comes three_tasks queue 1 0 three-IsQueue (omega arith) refl (omega arith)

list_remove_lem_example :
    ((task_list_remove three_tasks 16).task_head ≡ 8)
    × ((task_list_remove three_tasks 16).task_tail ≡ 24)
    × Forward (task_list_remove three_tasks 16).at (8 ∷ 24 ∷ [])
list_remove_lem_example = list_remove_lem three_tasks (8 ∷ []) 16 (24 ∷ []) three-IsQueue

list_remove_stale_example :
    ((task_list_remove (task_list_remove three_tasks 16) 24).task_tail ≡ 16)
    × (((task_list_remove (task_list_remove three_tasks 16) 24).at 8).next ≡ 24)
list_remove_stale_example = list_remove_stale three_tasks [] 8 16 24 three-IsQueue

-- The chunk at 4 has a directory at 4096, whose tables lie behind it and map every page to frame 0.
abbrev words : Array
words a =
    if a == 4 then 4096 else if leb 4096 a && ltb a 8192 then (a - 4096) / 4 * 4096 + 8192 else 0

-- "hi" at 0x10.
abbrev text : Array
text a = if a == 16 then b'h' else if a == 17 then b'i' else 0

-- Every block lies at 0x1000000.
abbrev one_block : Allocator
one_block = record { State = ℕ; kzalloc = λ n s. (0x1000000, s + 1); kfree = λ a s. s }
