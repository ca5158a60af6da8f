-- ===== src/Restartd/Pids.antt =====
-- svc.restartd/pidlist.c and `purgepids` of util.c: the list of a service's processes.
use runit.Base.{ℕ, ◌+◌, ◌≡◌, List, [], ◌∷◌, if◌then◌else◌, ◌==◌, ltb, arith, ◌-◌}
use runit.Restartd.Defs.{terminate, Service, emit}

-- A linked list is the list of its numbers. The new one goes behind the last.
unfoldable pub pid_list_addpid : List ℕ → ℕ → List ℕ
pid_list_addpid [] pid = pid ∷ []
pid_list_addpid (p ∷ l) pid = p ∷ pid_list_addpid l pid

-- The first element with the number goes.
unfoldable pub pid_list_delpid : List ℕ → ℕ → List ℕ
pid_list_delpid [] pid = []
pid_list_delpid (p ∷ l) pid = let rest = pid_list_delpid l pid in if p == pid then l else p ∷ rest

-- `kill(t->PID, sig)` up to an element that is not positive; the signal is SIGTERM in all calls.
unfoldable pub purgepids : List ℕ → Service → Service
purgepids [] s = s
purgepids (p ∷ l) s = let next = purgepids l (emit (terminate p) s) in if ltb 0 p then next else s

-- How often a number is in the list.
abbrev pub occurs : ℕ → List ℕ → ℕ
occurs x [] = 0
occurs x (p ∷ l) = (if p == x then 1 else 0) + occurs x l

pub occurs-addpid :
    (x : ℕ) (l : List ℕ) (pid : ℕ)
    → occurs x (pid_list_addpid l pid) ≡ occurs x l + (if pid == x then 1 else 0)
unfolding pid_list_addpid
occurs-addpid x [] pid = omega arith
occurs-addpid x (p ∷ l) pid = ground (arith, occurs-addpid x l pid)

pub occurs-delpid :
    (x : ℕ) (l : List ℕ) (pid : ℕ)
    → occurs x (pid_list_delpid l pid) ≡ (if pid == x then occurs x l - 1 else occurs x l)
unfolding pid_list_delpid
occurs-delpid x [] pid = ground arith
occurs-delpid x (p ∷ l) pid = ground (arith, occurs-delpid x l pid)
