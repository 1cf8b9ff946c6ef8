-- ===== src/Notifications/Hub/Members.antt =====
-- services/notification-service/internal/hub/websocket_hub.go: the signals of the hub, and the
-- signals that leave its clients alone.
use goshield.Prelude.{
  ◌≡◌, refl, subst, sym, ap, ◌∙◌, String, true, false, some, List, [], ◌∷◌, ◌==◌, eq_iff, arith,
  All, Bool-cases, ltb, length, ◌++◌, Option-cases, inl, inr,
}
use goshield.Notifications.Hub.{
  Client, Company, Channel, Hub, taken, send_capacity, lookup, remove, company_of, set_channel,
  register, unregister, offer, offer_all, broadcast, receive,
}

module _ {V : Type 0} where
  pub All-remove :
      (P Q : String × V → Type 0) (k : String) (m : List (String × V))
      → ((j : String) (v : V) → (j == k) ≡ false → P (j, v) → Q (j, v))
      → All P m
      → All Q (remove k m)
  unfolding remove
  All-remove P Q k [] step h = tt
  All-remove P Q k ((j, v) ∷ m) step h = elim (Bool-cases (j == k)) [
    | inl e ↦ rw e (All-remove P Q k m step h.1)
    | inr e ↦ rw e (step j v e h.0, All-remove P Q k m step h.1)
  ]

  pub lookup-All :
      (P : String × V → Type 0) (k : String) (v : V) (m : List (String × V))
      → lookup k m ≡ some v
      → All P m
      → P (k, v)
  unfolding lookup
  lookup-All P k v [] e h = absurd (ground arith)
  lookup-All P k v ((j, u) ∷ m) e h = elim (Bool-cases (j == k)) [
    | inl same ↦
        subst (λ i. P (i, v)) ((eq_iff j k).0 same) (subst (λ x. P (j, x)) (ground arith) h.0)
    | inr other ↦ lookup-All P k v m (ground arith) h.1
  ]

-- A client stands in the company that owns its id, under its id, and its channel is open.
abbrev pub Member :
    {M : Type 0} → (String → String) → (String → Channel M) → String → String × Client → Type 0
Member owner channels company (i, c) =
    (c.id ≡ i) × (owner i ≡ company) × ((channels i).is_open ≡ true)

abbrev pub Members :
    {M : Type 0} → (String → String) → (String → Channel M) → String × Company → Type 0
Members owner channels (company, cs) = All (Member owner channels company) cs

-- Nothing has panicked, and every registered client is a member of its company.
abbrev pub IsSound : {M : Type 0} → (String → String) → Hub M → Type 0
IsSound owner h = (h.panicked ≡ false) × All (Members owner h.channels) h.clients

-- What the hub's loop receives, and the write pump of a client.
pub data Signal (M : Type 0) : Type 0 where
  registers : Client → Signal M
  unregisters : Client → Signal M
  broadcasts : String → M → Signal M
  receives : String → Signal M

module _ {M : Type 0} where
  unfoldable pub serve : Signal M → Hub M → Hub M
  serve (registers c) h = register c h
  serve (unregisters c) h = unregister c h
  serve (broadcasts company bytes) h = broadcast company bytes h
  serve (receives i) h = receive i h

  unfoldable pub serve_all : List (Signal M) → Hub M → Hub M
  serve_all [] h = h
  serve_all (s ∷ ss) h = serve_all ss (serve s h)

  -- A client comes from its own company, and registers with an open channel.
  abbrev pub Fits : (String → String) → Signal M → Hub M → Type 0
  Fits owner (registers c) h = (owner c.id ≡ c.company_id) × ((h.channels c.id).is_open ≡ true)
  Fits owner (unregisters c) h = owner c.id ≡ c.company_id
  Fits owner (broadcasts company bytes) h = Unit {0}
  Fits owner (receives i) h = Unit {0}

  abbrev pub AllFit : (String → String) → List (Signal M) → Hub M → Type 0
  AllFit owner [] h = Unit {0}
  AllFit owner (s ∷ ss) h = Fits owner s h × AllFit owner ss (serve s h)

  -- The two hubs have the same clients and panics, and the same channels are open.
  abbrev pub Alike : Hub M → Hub M → Type 0
  Alike h g =
      (g.clients ≡ h.clients)
      × (g.panicked ≡ h.panicked)
      × ((k : String) → (g.channels k).is_open ≡ (h.channels k).is_open)

  module _ (owner : String → String) where
    Members-move :
        (f g : String → Channel M) (company : String) (cs : Company)
        → ((k : String) → (g k).is_open ≡ (f k).is_open)
        → Members owner f (company, cs)
        → Members owner g (company, cs)
    Members-move f g company [] same h = tt
    Members-move f g company (e ∷ cs) same h =
        ((h.0.0, h.0.1, same e.0 ∙ h.0.2), Members-move f g company cs same h.1)

    clients-move :
        (f g : String → Channel M) (m : List (String × Company))
        → ((k : String) → (g k).is_open ≡ (f k).is_open)
        → All (Members owner f) m
        → All (Members owner g) m
    clients-move f g [] same h = tt
    clients-move f g (e ∷ m) same h =
        (Members-move f g e.0 e.1 same h.0, clients-move f g m same h.1)

    pub Alike-IsSound : (h g : Hub M) → Alike h g → IsSound owner h → IsSound owner g
    Alike-IsSound h g same sound = (
      same.1 ∙ sound.0,
      subst (All (Members owner g.channels)) (sym same.0)
          (clients-move h.channels g.channels h.clients same.2 sound.1),
    )

    pub company_of-Members :
        (f : String → Channel M) (k : String) (m : List (String × Company))
        → All (Members owner f) m
        → Members owner f (k, company_of k m)
    unfolding company_of
    company_of-Members f k m h = elim (Option-cases (lookup k m)) [
      | inl e ↦ rw (e, company_of) tt
      | inr (c, e) ↦ rw (e, company_of) (lookup-All (Members owner f) k c m e h)
    ]

    pub register-IsSound :
        (c : Client) (h : Hub M)
        → Fits owner (registers c) h
        → IsSound owner h
        → IsSound owner (register c h)
    unfolding register
    register-IsSound c h fits sound = (
      sound.0,
      (
        (
          (refl, fits.0, fits.1),
          All-remove (Member owner h.channels c.company_id) (Member owner h.channels c.company_id)
              c.id (company_of c.company_id h.clients) (λ j v e k. k)
              (company_of-Members h.channels c.company_id h.clients sound.1),
        ),
        All-remove (Members owner h.channels) (Members owner h.channels) c.company_id h.clients
            (λ j v e k. k) sound.1,
      ),
    )

  set_channel-open :
      (n : String) (c : Channel M) (f : String → Channel M) (k : String)
      → c.is_open ≡ (f n).is_open
      → (set_channel n c f k).is_open ≡ (f k).is_open
  unfolding set_channel
  set_channel-open n c f k same = elim (Bool-cases (k == n)) [
    | inl e ↦ rw (e, set_channel) (same ∙ ap (λ i. (f i).is_open) (sym ((eq_iff k n).0 e)))
    | inr e ↦ rw (e, set_channel) refl
  ]

  taken-Alike : (i : String) (ms : List M) (h : Hub M) → Alike h (taken i ms h)
  unfolding taken
  taken-Alike i [] h = (refl, refl, λ k. refl)
  taken-Alike i (m ∷ ms) h = (
    refl,
    refl,
    λ k.
        set_channel-open i (record { waiting = ms; is_open = (h.channels i).is_open }) h.channels k
          refl,
  )

  pub receive-Alike : (i : String) (h : Hub M) → Alike h (receive i h)
  unfolding receive
  receive-Alike i h = taken-Alike i (h.channels i).waiting h

  offer-Alike :
      (bytes : M) (i : String) (h : Hub M)
      → (h.channels i).is_open ≡ true
      → Alike h (offer bytes i h)
  unfolding offer
  offer-Alike bytes i h live =
      elim (Bool-cases (ltb (length (h.channels i).waiting) send_capacity)) [
        | inl room ↦
            rw (live, room, offer)
              (
                refl,
                refl,
                λ k.
                    set_channel-open i
                      (record { waiting = (h.channels i).waiting ++ bytes ∷ []; is_open = true })
                      h.channels k (sym live),
              )
        | inr full ↦ rw (live, full, offer) (refl, refl, λ k. refl)
      ]

  offer_all-Alike :
      (owner : String → String) (company : String) (bytes : M) (cs : Company) (h : Hub M)
      → Members owner h.channels (company, cs)
      → Alike h (offer_all bytes cs h)
  unfolding offer_all
  offer_all-Alike owner company bytes [] h all = (refl, refl, λ k. refl)
  offer_all-Alike owner company bytes ((i, c) ∷ cs) h all =
      let live = subst (λ j. (h.channels j).is_open ≡ true) (sym all.0.0) all.0.2 in
      let first = offer-Alike bytes c.id h live in
      let next = offer bytes c.id h in
      let rest =
        offer_all-Alike owner company bytes cs next
          (Members-move owner h.channels next.channels company cs first.2 all.1) in
      (rest.0 ∙ first.0, rest.1 ∙ first.1, λ k. rest.2 k ∙ first.2 k)

  pub broadcast-Alike :
      (owner : String → String) (company : String) (bytes : M) (h : Hub M)
      → IsSound owner h
      → Alike h (broadcast company bytes h)
  unfolding broadcast
  broadcast-Alike owner company bytes h sound =
      offer_all-Alike owner company bytes (company_of company h.clients) h
        (company_of-Members owner h.channels company h.clients sound.1)
