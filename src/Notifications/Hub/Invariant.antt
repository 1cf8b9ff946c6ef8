-- ===== src/Notifications/Hub/Invariant.antt =====
-- services/notification-service/internal/hub/websocket_hub.go: the hub never sends on a closed
-- channel and closes none twice.
use goshield.Prelude.{
  ◌≡◌, refl, ap, ◌∙◌, String, true, false, Option, none, some, List, [], ◌∷◌, ◌==◌, eq_iff, arith,
  All, Bool-cases, inl, inr,
}
use goshield.Notifications.Hub.{
  Client, Company, Channel, Hub, lookup, remove, set_channel, close, prune, leave, depart,
  unregister, broadcast, receive,
}
use goshield.Notifications.Hub.Members.{
  lookup-All, All-remove, Member, Members, IsSound, Signal, registers, unregisters, broadcasts,
  receives, serve, serve_all, Fits, AllFit, Alike-IsSound, register-IsSound, receive-Alike,
  broadcast-Alike,
}

module _ {M : Type 0} where
  module _ (owner : String → String) where
    prune-Members :
        (f : String → Channel M) (k : String) (cs : Company) (m : List (String × Company))
        → Members owner f (k, cs)
        → All (Members owner f) (remove k m)
        → All (Members owner f) (prune k cs m)
    unfolding prune
    prune-Members f k [] m here rest = rest
    prune-Members f k (e ∷ cs) m here rest = (here, rest)

    set_channel-other :
        (n : String) (c : Channel M) (f : String → Channel M) (k : String)
        → (k == n) ≡ false
        → set_channel n c f k ≡ f k
    unfolding set_channel
    set_channel-other n c f k other = rw other refl

    Members-elsewhere :
        (n : String) (c : Channel M) (f : String → Channel M) (company : String) (cs : Company)
        → (company == owner n) ≡ false
        → Members owner f (company, cs)
        → Members owner (set_channel n c f) (company, cs)
    Members-elsewhere n c f company [] other h = tt
    Members-elsewhere n c f company ((i, d) ∷ cs) other h =
        let apart : (i == n) ≡ false = elim (Bool-cases (i == n)) [
          | inl same ↦
              absurd (
                ground (arith, ap owner ((eq_iff i n).0 same), (eq_iff company (owner n)).1, h.0.1))
          | inr differs ↦ differs
        ] in
        (
          (h.0.0, h.0.1, ap (λ x. x.is_open) (set_channel-other n c f i apart) ∙ h.0.2),
          Members-elsewhere n c f company cs other h.1,
        )

    closed-Members :
        (c : Client) (gone : Channel M) (f : String → Channel M) (cs : Company)
        (m : List (String × Company))
        → owner c.id ≡ c.company_id
        → Members owner f (c.company_id, cs)
        → All (Members owner f) m
        → All (Members owner (set_channel c.id gone f)) (prune c.company_id (remove c.id cs) m)
    closed-Members c gone f cs m owned here rest =
        prune-Members (set_channel c.id gone f) c.company_id (remove c.id cs) m
          (All-remove (Member owner f c.company_id)
            (Member owner (set_channel c.id gone f) c.company_id) c.id cs
            (λ j d other k.
              (k.0, k.1, ap (λ x. x.is_open) (set_channel-other c.id gone f j other) ∙ k.2))
            here)
          (All-remove (Members owner f) (Members owner (set_channel c.id gone f)) c.company_id m
            (λ j ds other k. Members-elsewhere c.id gone f j ds (ap (λ o. j == o) owned ∙ other) k)
            rest)

    close-IsSound :
        (c : Client) (h : Hub M) (cs : Company)
        → owner c.id ≡ c.company_id
        → (h.channels c.id).is_open ≡ true
        → Members owner h.channels (c.company_id, cs)
        → IsSound owner h
        → IsSound owner
            (close c.id (record h { clients = prune c.company_id (remove c.id cs) h.clients }))
    unfolding close
    close-IsSound c h cs owned live here sound =
        rw (live, close)
          (
            sound.0,
            closed-Members c (record { waiting = (h.channels c.id).waiting; is_open = false })
                h.channels cs h.clients owned here sound.1,
          )

    leave-IsSound :
        (c : Client) (cs : Company) (found : Option Client) (h : Hub M)
        → owner c.id ≡ c.company_id
        → lookup c.id cs ≡ found
        → Members owner h.channels (c.company_id, cs)
        → IsSound owner h
        → IsSound owner (leave c cs found h)
    unfolding leave
    leave-IsSound c cs none h owned e here sound = (
      sound.0,
      prune-Members h.channels c.company_id cs h.clients here (
          All-remove (Members owner h.channels) (Members owner h.channels) c.company_id h.clients
            (λ j v e k. k) sound.1),
    )
    leave-IsSound c cs (some d) h owned e here sound =
        close-IsSound c h cs owned
          (lookup-All (Member owner h.channels c.company_id) c.id d cs e here).2 here sound

    depart-IsSound :
        (c : Client) (found : Option Company) (h : Hub M)
        → owner c.id ≡ c.company_id
        → lookup c.company_id h.clients ≡ found
        → IsSound owner h
        → IsSound owner (depart c found h)
    unfolding depart
    depart-IsSound c none h owned e sound = sound
    depart-IsSound c (some cs) h owned e sound =
        leave-IsSound c cs (lookup c.id cs) h owned refl
          (lookup-All (Members owner h.channels) c.company_id cs h.clients e sound.1) sound

    pub serve-IsSound :
        (s : Signal M) (h : Hub M) → Fits owner s h → IsSound owner h → IsSound owner (serve s h)
    unfolding serve unregister
    serve-IsSound (registers c) h fits sound = register-IsSound owner c h fits sound
    serve-IsSound (unregisters c) h fits sound =
        depart-IsSound c (lookup c.company_id h.clients) h fits refl sound
    serve-IsSound (broadcasts company bytes) h fits sound =
        Alike-IsSound owner h (broadcast company bytes h)
          (broadcast-Alike owner company bytes h sound) sound
    serve-IsSound (receives i) h fits sound =
        Alike-IsSound owner h (receive i h) (receive-Alike i h) sound

    -- Whatever the hub receives, in any order, from clients that come from their own company and
    -- register with an open channel: it sends on no closed channel and closes none twice, and every
    -- client that is still registered has an open channel.
    pub serve_all-IsSound :
        (ss : List (Signal M)) (h : Hub M)
        → AllFit owner ss h
        → IsSound owner h
        → IsSound owner (serve_all ss h)
    unfolding serve_all
    serve_all-IsSound [] h fits sound = sound
    serve_all-IsSound (s ∷ ss) h fits sound =
        serve_all-IsSound ss (serve s h) fits.1 (serve-IsSound s h fits.0 sound)
