-- ===== src/Protocol/States.antt =====
-- The states that the collector thread and the collecting thread can be in, for each place where the
-- collector thread is, with the bits of the flags. The number beside a state bounds the
-- steps until the collection is finished.
use cgc.Base.{ℕ, ◌/◌, ◌%◌, Bool, List, [], ◌∷◌, ◌==◌}
use cgc.Protocol.{
  clears, marks, sweeps, resumes, Worker, outside, entering, tests, asleep, waking, works, stopped,
  Collector, prepares, requests, notifies, awaits, inspects, dozing, rising, stops, wakes, joins,
  gone, Holder, nobody, worker, collector, System,
}

-- The flags from the bits of a number: `m_run`, the four requests and the four flags for what is done.
abbrev bit : ℕ → ℕ → Bool
bit n d = (n / d) % 2 == 1

abbrev at : Worker → Collector → Holder → ℕ → System
at w c h n = record {
  at_worker = w;
  at_collector = c;
  mutex = h;
  run = bit n 1;
  do_clear = bit n 2;
  do_mark = bit n 4;
  do_sweep = bit n 8;
  do_all_threads_resumed = bit n 16;
  clear_done = bit n 32;
  mark_done = bit n 64;
  sweep_done = bit n 128;
  finalization_done = bit n 256;
}

-- The states with the collector thread at the place.
abbrev pub rows : Worker → List (System × ℕ)
rows outside =
    (at outside (awaits resumes) nobody 257, 4)
    ∷ (at outside (inspects resumes) collector 257, 1)
    ∷ (at outside prepares nobody 257, 45)
    ∷ (at outside (requests clears) nobody 1, 44)
    ∷ (at outside stops nobody 257, 7)
    ∷ (at outside (notifies clears) nobody 3, 41)
    ∷ (at outside wakes nobody 256, 3)
    ∷ (at outside (awaits clears) nobody 3, 40)
    ∷ (at outside joins nobody 256, 2)
    ∷ (at outside (inspects clears) collector 3, 39)
    ∷ (at outside (dozing clears) nobody 3, 38)
    ∷ (at outside (awaits resumes) nobody 481, 4)
    ∷ (at outside (inspects resumes) collector 481, 1)
    ∷ (at outside prepares nobody 481, 45)
    ∷ (at outside (rising resumes) nobody 481, 4)
    ∷ (at outside stops nobody 481, 7)
    ∷ (at outside wakes nobody 480, 3)
    ∷ (at outside joins nobody 480, 2)
    ∷ []
rows entering =
    (at entering (awaits resumes) nobody 257, 3)
    ∷ (at entering (inspects resumes) collector 257, 0)
    ∷ (at entering prepares nobody 257, 44)
    ∷ (at entering (requests clears) nobody 1, 43)
    ∷ (at entering stops nobody 257, 6)
    ∷ (at entering (notifies clears) nobody 3, 40)
    ∷ (at entering wakes nobody 256, 5)
    ∷ (at entering (awaits clears) nobody 3, 39)
    ∷ (at entering joins nobody 256, 2)
    ∷ (at entering (inspects clears) collector 3, 38)
    ∷ (at entering (dozing clears) nobody 3, 37)
    ∷ (at entering (awaits resumes) nobody 481, 3)
    ∷ (at entering (inspects resumes) collector 481, 0)
    ∷ (at entering prepares nobody 481, 44)
    ∷ (at entering (rising resumes) nobody 481, 3)
    ∷ (at entering stops nobody 481, 6)
    ∷ (at entering wakes nobody 480, 5)
    ∷ (at entering joins nobody 480, 2)
    ∷ []
rows (tests clears) =
    (at (tests clears) (awaits resumes) worker 257, 2)
    ∷ (at (tests clears) prepares worker 257, 43)
    ∷ (at (tests clears) stops worker 257, 5)
    ∷ (at (tests clears) (requests clears) worker 1, 42)
    ∷ (at (tests clears) wakes worker 256, 4)
    ∷ (at (tests clears) (notifies clears) worker 3, 37)
    ∷ (at (tests clears) (awaits clears) worker 3, 36)
    ∷ (at (tests clears) joins worker 256, 1)
    ∷ (at (tests clears) (dozing clears) worker 3, 36)
    ∷ (at (tests clears) (awaits resumes) worker 481, 2)
    ∷ (at (tests clears) prepares worker 481, 43)
    ∷ (at (tests clears) (rising resumes) worker 481, 2)
    ∷ (at (tests clears) stops worker 481, 5)
    ∷ (at (tests clears) wakes worker 480, 4)
    ∷ (at (tests clears) joins worker 480, 1)
    ∷ []
rows (asleep clears) =
    (at (asleep clears) (awaits resumes) nobody 257, 1)
    ∷ (at (asleep clears) (inspects resumes) collector 257, 0)
    ∷ (at (asleep clears) prepares nobody 257, 42)
    ∷ (at (asleep clears) (requests clears) nobody 1, 41)
    ∷ (at (asleep clears) stops nobody 257, 4)
    ∷ (at (asleep clears) (notifies clears) nobody 3, 40)
    ∷ (at (asleep clears) wakes nobody 256, 3)
    ∷ (at (asleep clears) joins nobody 256, 0)
    ∷ (at (asleep clears) (awaits resumes) nobody 481, 1)
    ∷ (at (asleep clears) (inspects resumes) collector 481, 0)
    ∷ (at (asleep clears) prepares nobody 481, 42)
    ∷ (at (asleep clears) (rising resumes) nobody 481, 1)
    ∷ (at (asleep clears) stops nobody 481, 4)
    ∷ (at (asleep clears) wakes nobody 480, 3)
    ∷ (at (asleep clears) joins nobody 480, 0)
    ∷ []
rows (waking clears) =
    (at (waking clears) (awaits clears) nobody 3, 39)
    ∷ (at (waking clears) joins nobody 256, 2)
    ∷ (at (waking clears) (inspects clears) collector 3, 38)
    ∷ (at (waking clears) (dozing clears) nobody 3, 37)
    ∷ (at (waking clears) joins nobody 480, 2)
    ∷ []
rows (works clears) =
    (at (works clears) (notifies clears) worker 1, 36)
    ∷ (at (works clears) (awaits clears) worker 1, 35)
    ∷ (at (works clears) (dozing clears) worker 1, 35)
    ∷ []
rows (tests marks) =
    (at (tests marks) (notifies clears) worker 33, 35)
    ∷ (at (tests marks) (awaits clears) worker 33, 34)
    ∷ (at (tests marks) (rising clears) worker 33, 34)
    ∷ (at (tests marks) (awaits marks) worker 37, 26)
    ∷ (at (tests marks) (dozing marks) worker 37, 26)
    ∷ []
rows (asleep marks) =
    (at (asleep marks) (notifies clears) nobody 33, 34)
    ∷ (at (asleep marks) (awaits clears) nobody 33, 33)
    ∷ (at (asleep marks) (inspects clears) collector 33, 32)
    ∷ (at (asleep marks) (requests marks) nobody 33, 31)
    ∷ (at (asleep marks) (rising clears) nobody 33, 33)
    ∷ (at (asleep marks) (notifies marks) nobody 37, 30)
    ∷ []
rows (waking marks) =
    (at (waking marks) (awaits marks) nobody 37, 29)
    ∷ (at (waking marks) (inspects marks) collector 37, 28)
    ∷ (at (waking marks) (dozing marks) nobody 37, 27)
    ∷ []
rows (works marks) =
    (at (works marks) (awaits marks) worker 33, 25)
    ∷ (at (works marks) (dozing marks) worker 33, 25)
    ∷ []
rows (tests sweeps) =
    (at (tests sweeps) (awaits marks) worker 97, 24)
    ∷ (at (tests sweeps) (rising marks) worker 97, 24)
    ∷ (at (tests sweeps) (awaits sweeps) worker 105, 16)
    ∷ (at (tests sweeps) (dozing sweeps) worker 105, 16)
    ∷ []
rows (asleep sweeps) =
    (at (asleep sweeps) (awaits marks) nobody 97, 23)
    ∷ (at (asleep sweeps) (inspects marks) collector 97, 22)
    ∷ (at (asleep sweeps) (requests sweeps) nobody 97, 21)
    ∷ (at (asleep sweeps) (rising marks) nobody 97, 23)
    ∷ (at (asleep sweeps) (notifies sweeps) nobody 105, 20)
    ∷ []
rows (waking sweeps) =
    (at (waking sweeps) (awaits sweeps) nobody 105, 19)
    ∷ (at (waking sweeps) (inspects sweeps) collector 105, 18)
    ∷ (at (waking sweeps) (dozing sweeps) nobody 105, 17)
    ∷ []
rows (works sweeps) =
    (at (works sweeps) (awaits sweeps) worker 97, 15)
    ∷ (at (works sweeps) (dozing sweeps) worker 97, 15)
    ∷ []
rows (tests resumes) =
    (at (tests resumes) (awaits sweeps) worker 225, 14)
    ∷ (at (tests resumes) (rising sweeps) worker 225, 14)
    ∷ (at (tests resumes) (awaits resumes) worker 241, 6)
    ∷ (at (tests resumes) (dozing resumes) worker 241, 6)
    ∷ []
rows (asleep resumes) =
    (at (asleep resumes) (awaits sweeps) nobody 225, 13)
    ∷ (at (asleep resumes) (inspects sweeps) collector 225, 12)
    ∷ (at (asleep resumes) (requests resumes) nobody 225, 11)
    ∷ (at (asleep resumes) (rising sweeps) nobody 225, 13)
    ∷ (at (asleep resumes) (notifies resumes) nobody 241, 10)
    ∷ []
rows (waking resumes) =
    (at (waking resumes) (awaits resumes) nobody 241, 9)
    ∷ (at (waking resumes) (inspects resumes) collector 241, 8)
    ∷ (at (waking resumes) (dozing resumes) nobody 241, 7)
    ∷ []
rows (works resumes) =
    (at (works resumes) (awaits resumes) worker 225, 5)
    ∷ (at (works resumes) (dozing resumes) worker 225, 5)
    ∷ []
rows stopped =
    (at stopped wakes nobody 256, 2)
    ∷ (at stopped joins nobody 256, 1)
    ∷ (at stopped gone nobody 256, 0)
    ∷ (at stopped wakes nobody 480, 2)
    ∷ (at stopped joins nobody 480, 1)
    ∷ (at stopped gone nobody 480, 0)
    ∷ []
