-- ===== src/Task/Keys.antt =====
-- What a task is assigned, and the keys that its loader is asked for.
use channel_loader_rs.Base.{
  ◌≡◌, ◌∙◌, sym, map, count, count-perm, count-hash_set, count_pos, mem_of_count, Memᴰ, arith,
}
use Prim.Native.Nat.{min}
use mathlib.Core.List.Memᴰ
use channel_loader_rs.External.{Order}
use channel_loader_rs.Request.{Runtime, Request, key}
use channel_loader_rs.Task.{LoadBatch, keys}

-- The keys handed to a loader contain the key of each request of the batch exactly once and no
-- other key, whatever order the set of keys is read in.
pub count-keys :
    (r : Runtime) (order : Order r.Key) (batch : LoadBatch r) (k : r.Key)
    → count r.Key-discrete k (keys r order batch)
      ≡ min 1 (count r.Key-discrete k (map (key r) batch.requests))
unfolding keys
count-keys r order batch k =
    sym (count-perm r.Key-discrete k (order.visit-perm _))
    ∙ count-hash_set r.Key-discrete k (map (key r) batch.requests)

-- The key of every request of the batch is among them.
pub key-mem-keys :
    (r : Runtime) (order : Order r.Key) (batch : LoadBatch r) (req : Request r)
    → Memᴰ req batch.requests
    → Memᴰ (key r req) (keys r order batch)
key-mem-keys r order batch req m = mem_of_count r.Key-discrete (key r req) (keys r order batch) (
    omega (
      arith,
      count-keys r order batch (key r req),
      count_pos r.Key-discrete (key r req) (map (key r) batch.requests) (Memᴰ.map (key r) m),
    ))
