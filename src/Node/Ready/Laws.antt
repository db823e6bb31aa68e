-- ===== src/Node/Ready/Laws.antt =====
-- Which models a node reports as ready.
use jw_swarm.Common.{
  ℕ, String, [], ◌∷◌, Bool, false, Option, none, some, is_some, contains, leb, if◌then◌else◌, ◌==◌,
  ◌≡◌, refl, arith,
}
use jw_swarm.Common.HashMap
use jw_swarm.Common.HashMap.{HashMap, get-insert, get-remove}
use jw_swarm.Common.Sort.{contains-sort}
use jw_swarm.Node.Ready.{register, keys, ready_ids}

contains-keys {ℓ} :
    {V : Type ℓ} (m : HashMap V) (k : String) → contains (keys m) k ≡ is_some (HashMap.get m k)
unfolding keys HashMap.get
contains-keys [] k = refl
contains-keys ((j, v) ∷ m) k = ground (arith, contains-keys m k)

-- The artifact is there and within the limit.
abbrev pub fits : ℕ → Option ℕ → Bool
fits limit none = false
fits limit (some size) = leb size limit

-- After a registration the model is among the ready ones exactly if its artifact is there and
-- within the memory limit, whatever was registered before, and every other model is ready exactly
-- if it was.
pub ready_ids-register :
    (limit : ℕ) (ready : HashMap String) (id dir : String) (size_mb : Option ℕ) (k : String)
    → contains (ready_ids (register limit ready id dir size_mb)) k
      ≡ (if id == k then fits limit size_mb else contains (ready_ids ready) k)
unfolding ready_ids register
ready_ids-register limit ready id dir none k = ground (
  arith,
  contains-sort k (keys (HashMap.remove ready id)),
  contains-sort k (keys ready),
  contains-keys (HashMap.remove ready id) k,
  contains-keys ready k,
  get-remove ready id k,
)
ready_ids-register limit ready id dir (some size) k = ground (
  arith,
  contains-sort k (keys (HashMap.remove ready id)),
  contains-sort k (keys (HashMap.insert ready id dir)),
  contains-sort k (keys ready),
  contains-keys (HashMap.remove ready id) k,
  contains-keys (HashMap.insert ready id dir) k,
  contains-keys ready k,
  get-remove ready id k,
  get-insert ready id k dir,
)
