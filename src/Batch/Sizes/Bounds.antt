-- ===== src/Batch/Sizes/Bounds.antt =====
-- The batch size that callers are told.
use mathlib.Core.List.Memᴰ
use channel_loader_rs.Base.{
  ℕ, ◌≤◌, ◌≡◌, refl, ◌∙◌, sym, ap, subst, List, [], ◌∷◌, map, some, none, ok, get-zip, length,
  length-perm, hash_set, length-hash_set-le, length-hash_set_pos, Memᴰ, map,
}
use channel_loader_rs.External.{SwapQueue, Order}
use channel_loader_rs.Request.{Runtime, Reply, World, Request, key}
use channel_loader_rs.Request.Receive.{returns}
use channel_loader_rs.Task.{PendingAssignment, LoadBatch, keys}
use channel_loader_rs.Task.Keys.{key-mem-keys}
use channel_loader_rs.Task.Resolve.{reply_to}
use channel_loader_rs.Loader.{DataLoader}
use channel_loader_rs.Loader.Together.{load_all, keys-load_all}
use channel_loader_rs.Handler.{TaskHandler}
use channel_loader_rs.Handler.Answer.{run_handled, assigned_to}
use channel_loader_rs.Handler.Together.{AllReturn, load_all-one_batch, loaded_for}
use channel_loader_rs.Batch.Sizes.{batch_size_load, sized}

module _ (r : Runtime) (size : ℕ → r.Value) where
  -- Every key asked for is given the number of keys.
  reply_to-batch_size_load :
      (ks : List r.Key) (k : r.Key)
      → Memᴰ k ks
      → reply_to r (batch_size_load r size ks) k ≡ ok (some (size (length ks)))
  unfolding reply_to batch_size_load sized
  reply_to-batch_size_load ks k m = ap ok (get-zip r.Key-discrete (λ k. size (length ks)) ks k m)

  -- The set of keys is as large, in whatever order it is read.
  length-keys_set :
      (order : Order r.Key) (batch : LoadBatch r)
      → length (keys r order batch) ≡ length (hash_set r.Key-discrete (map (key r) batch.requests))
  unfolding keys
  length-keys_set order batch = sym (length-perm (order.visit-perm _))

  AllReturn-map :
      (f g : r.Key → Reply r) (w : World r) (calls : List (r.Key × r.oneshot.Handle))
      → ((k : r.Key) → Memᴰ k (map (λ call. call.0) calls) → f k ≡ g k)
      → AllReturn r f w calls
      → AllReturn r g w calls
  AllReturn-map f g w [] same all = tt
  AllReturn-map f g w (call ∷ calls) same (one, all) = (
    one ∙ ap returns (same call.0 (Memᴰ.head refl)),
    AllReturn-map f g w calls (λ k m. same k (Memᴰ.tail m)) all,
  )

  module _ (q : SwapQueue (Request r)) (h : TaskHandler r q) where
    -- When one or more keys are asked for one after the other on a loader with no batch waiting
    -- and no task spawned, one task is spawned, and when a handler whose results are those of
    -- `BatchSizeLoader::load` has run on it and rayon its job, in any order of visit, each call
    -- returns the number of different keys asked for, which is at least one and at most the
    -- number of calls.
    pub load_all-bounds :
        (o : h.Oracle)
        → ((ks : List r.Key) → h.results_for o ks ≡ batch_size_load r size ks)
        → (visit : Order (Request r)) (k : r.Key) (ks : List r.Key) (l : DataLoader r q)
        → q.waiting l.queue ≡ none
        → l.spawned ≡ []
        → let (calls, l') = load_all r q (k ∷ ks) l in
          (task : PendingAssignment r q) × (n : ℕ) × (l'.spawned ≡ task ∷ [])
          × (n ≡ length (hash_set r.Key-discrete (k ∷ ks)))
          × (1 ≤ n)
          × (n ≤ length (k ∷ ks))
          × AllReturn r
              (λ key. ok (some (size n)))
              (run_handled r q visit (h.handle_task o task l'.queue) l'.world)
              calls
    load_all-bounds o sizes visit k ks l out none_spawned =
        let (calls, l') = load_all r q (k ∷ ks) l in
        let (task, one, asked, all) = load_all-one_batch r q h o visit k ks l out none_spawned in
        let batch : LoadBatch r = record { requests = assigned_to r q task l'.queue } in
        let n = length (hash_set r.Key-discrete (k ∷ ks)) in
        let counted : length (keys r (h.key_order o) batch) ≡ n =
          length-keys_set (h.key_order o) batch
          ∙ ap (λ ks. length (hash_set r.Key-discrete ks)) asked in
        (
          task,
          n,
          one,
          refl,
          length-hash_set_pos r.Key-discrete k ks,
          length-hash_set-le r.Key-discrete (k ∷ ks),
          AllReturn-map (loaded_for r q h o task l'.queue) _ _ calls
              (λ key m.
                ap (λ results. reply_to r results key) (sizes (keys r (h.key_order o) batch))
                ∙ reply_to-batch_size_load (keys r (h.key_order o) batch) key (
                    asked_key task l' key
                      (subst (Memᴰ key) (keys-load_all r q (k ∷ ks) l ∙ sym asked) m))
                ∙ ap (λ n. ok (some (size n))) counted)
              all,
        )
      where
        asked_key :
            (task : PendingAssignment r q) (l' : DataLoader r q) (k : r.Key)
            → Memᴰ k (map (key r) (assigned_to r q task l'.queue))
            → Memᴰ k (keys r (h.key_order o) (record { requests = assigned_to r q task l'.queue }))
        asked_key task l' k m =
            let (req, m', e) = Memᴰ.of_map (key r) (assigned_to r q task l'.queue) m in
            subst
              (λ k.
                Memᴰ k
                  (keys r (h.key_order o) (record { requests = assigned_to r q task l'.queue })))
              e
              (key-mem-keys r (h.key_order o) (record { requests = assigned_to r q task l'.queue })
                req m')
