-- ===== src/Redis/Invalidator/Told.antt =====
-- What the observers of the invalidator are told.
use channel_loader_rs.Base.{ℕ, suc, ◌≡◌, refl, ◌≢◌, List, [], ◌∷◌, ◌++◌, Option, none, some, true}
use channel_loader_rs.Redis.Invalidator.{
  Task, dialing, announcing, listening, forwarding, panicked, Call, invalidate_cache,
  invalidate_keys,
}
use channel_loader_rs.Redis.Invalidator.Views.{
  opens, opens-append, opens-cache, call, All, Partly, none-Partly, call-Partly, Partly-All,
}

module _ {Key : Type 0} where
  module _ {ClientId : Type 0} (observers : ℕ) where
    -- With the tasks that there are, the first `told` observers have been told of one connection
    -- or one message more.
    pub data Told (calls : List (Call Key)) : List (Task ClientId Key) → Type 0 where
      told_idle :
          (V : List (Option (List Key))) → opens V ≡ true → All observers calls V → Told calls []
      told_dialing :
          (V : List (Option (List Key)))
          → opens V ≡ true
          → All observers calls V
          → Told calls (dialing ∷ [])
      told_announcing :
          (V : List (Option (List Key))) (id : ClientId) (told : ℕ)
          → opens V ≡ true
          → Partly observers told calls V none
          → Told calls (announcing id told ∷ [])
      told_listening :
          (V : List (Option (List Key))) (id : ClientId)
          → opens V ≡ true
          → V ≢ []
          → All observers calls V
          → Told calls (listening id ∷ [])
      told_forwarding :
          (V : List (Option (List Key))) (id : ClientId) (keys : List Key) (told : ℕ)
          → opens V ≡ true
          → V ≢ []
          → Partly observers told calls V (some keys)
          → Told calls (forwarding id keys told ∷ [])
      told_panicked :
          (V : List (Option (List Key))) (id : ClientId)
          → opens V ≡ true
          → V ≢ []
          → All observers calls V
          → Told calls (panicked id ∷ [])

    pub dialed-Told :
        {calls : List (Call Key)} (id : ClientId)
        → Told calls (dialing ∷ [])
        → Told calls (announcing id 0 ∷ [])
    dialed-Told {calls} id (told_dialing V opened all) =
        told_announcing V id 0 opened (none-Partly observers calls V none all)

    pub failed-Told : {calls : List (Call Key)} → Told calls (dialing ∷ []) → Told calls []
    failed-Told (told_dialing V opened all) = told_idle V opened all

    pub announce-Told :
        {calls : List (Call Key)} {id : ClientId} {told : ℕ}
        → Told calls (announcing id told ∷ [])
        → Told (calls ++ invalidate_cache told ∷ []) (announcing id (suc told) ∷ [])
    unfolding call
    announce-Told {calls} (told_announcing V id told opened partly) =
        told_announcing V id (suc told) opened (call-Partly observers told calls V none partly)

    pub listen-Told :
        {calls : List (Call Key)} {id : ClientId}
        → Told calls (announcing id observers ∷ [])
        → Told calls (listening id ∷ [])
    listen-Told {calls} t = go observers t refl
      where
        go :
            {id : ClientId} (k : ℕ)
            → Told calls (announcing id k ∷ [])
            → k ≡ observers
            → Told calls (listening id ∷ [])
        go k (told_announcing V id told opened partly) all =
            let (opened', nonempty) = opens-cache V opened in
            told_listening (V ++ none ∷ []) id opened' nonempty
              (Partly-All observers told calls V none all partly)

    pub message-Told :
        {calls : List (Call Key)} {id : ClientId} (keys : List Key)
        → Told calls (listening id ∷ [])
        → Told calls (forwarding id keys 0 ∷ [])
    message-Told {calls} keys (told_listening V id opened nonempty all) =
        told_forwarding V id keys 0 opened nonempty (none-Partly observers calls V (some keys) all)

    pub tell-Told :
        {calls : List (Call Key)} {id : ClientId} {keys : List Key} {told : ℕ}
        → Told calls (forwarding id keys told ∷ [])
        → Told (calls ++ invalidate_keys told keys ∷ []) (forwarding id keys (suc told) ∷ [])
    unfolding call
    tell-Told {calls} (told_forwarding V id keys told opened nonempty partly) =
        told_forwarding V id keys (suc told) opened nonempty
          (call-Partly observers told calls V (some keys) partly)

    pub forwarded-Told :
        {calls : List (Call Key)} {id : ClientId} {keys : List Key}
        → Told calls (forwarding id keys observers ∷ [])
        → Told calls (listening id ∷ [])
    forwarded-Told {calls} t = go observers t refl
      where
        go :
            {id : ClientId} {keys : List Key} (k : ℕ)
            → Told calls (forwarding id keys k ∷ [])
            → k ≡ observers
            → Told calls (listening id ∷ [])
        go k (told_forwarding V id keys told opened nonempty partly) all =
            let (opened', nonempty') = opens-append V (some keys ∷ []) opened nonempty in
            told_listening (V ++ some keys ∷ []) id opened' nonempty'
              (Partly-All observers told calls V (some keys) all partly)

    pub panic-Told :
        {calls : List (Call Key)} {id : ClientId}
        → Told calls (listening id ∷ [])
        → Told calls (panicked id ∷ [])
    panic-Told (told_listening V id opened nonempty all) = told_panicked V id opened nonempty all

    pub ended-Told :
        {calls : List (Call Key)} {id : ClientId} → Told calls (listening id ∷ []) → Told calls []
    ended-Told (told_listening V id opened nonempty all) = told_idle V opened all

    pub dials-Told : {calls : List (Call Key)} → Told calls [] → Told calls (dialing ∷ [])
    dials-Told (told_idle V opened all) = told_dialing V opened all
