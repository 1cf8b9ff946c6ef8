-- ===== src/Notifications/Hub/Isolation.antt =====
-- services/notification-service/internal/hub/websocket_hub.go: who gets a broadcast, and who is
-- registered.
use goshield.Prelude.{
  ◌≡◌, refl, ap, ◌∙◌, ◌≢◌, String, false, some, List, [], ◌∷◌, ◌==◌, eq_iff, eq_refl, arith,
  Bool-cases, inl, inr,
}
use goshield.Notifications.Hub.{
  Client, Company, Hub, lookup, assign, company_of, set_channel, register, unregister, offer,
  offer_all, broadcast,
}
use goshield.Notifications.Hub.Members.{Members, IsSound, company_of-Members}

module _ {M : Type 0} (owner : String → String) where
  offer-elsewhere :
      (bytes : M) (n i : String) (h : Hub M)
      → (i == n) ≡ false
      → (offer bytes n h).channels i ≡ h.channels i
  unfolding offer set_channel
  offer-elsewhere bytes n i h other = ground arith

  offer_all-elsewhere :
      (bytes : M) (company i : String) (cs : Company) (h g : Hub M)
      → owner i ≢ company
      → Members owner g.channels (company, cs)
      → (offer_all bytes cs h).channels i ≡ h.channels i
  unfolding offer_all
  offer_all-elsewhere bytes company i [] h g other all = refl
  offer_all-elsewhere bytes company i ((j, c) ∷ cs) h g other all =
      offer_all-elsewhere bytes company i cs (offer bytes c.id h) g other all.1
      ∙ offer-elsewhere bytes c.id i h (elim (Bool-cases (i == c.id)) [
        | inl same ↦ absurd (other (ap owner ((eq_iff i c.id).0 same ∙ all.0.0) ∙ all.0.1))
        | inr differs ↦ differs
      ])

  -- If the hub is sound, a broadcast to one company reaches no channel of another company's client.
  pub broadcast-elsewhere :
      (company i : String) (bytes : M) (h : Hub M)
      → IsSound owner h
      → owner i ≢ company
      → (broadcast company bytes h).channels i ≡ h.channels i
  unfolding broadcast
  broadcast-elsewhere company i bytes h sound other =
      offer_all-elsewhere bytes company i (company_of company h.clients) h h other
        (company_of-Members owner h.channels company h.clients sound.1)

lookup-assign :
    {V : Type 0} (k : String) (v : V) (m : List (String × V)) → lookup k (assign k v m) ≡ some v
unfolding lookup
lookup-assign k v m = rw (eq_refl k) refl

company_of-assign :
    (k : String) (cs : Company) (m : List (String × Company)) → company_of k (assign k cs m) ≡ cs
unfolding company_of
company_of-assign k cs m = rw (lookup-assign k cs m, company_of) refl

module _ {M : Type 0} where
  -- A client that registers is found under its company and id.
  lookup-register :
      (c : Client) (h : Hub M)
      → lookup c.id (company_of c.company_id (register c h).clients) ≡ some c
  unfolding register
  lookup-register c h =
      ap (lookup c.id) (
        company_of-assign c.company_id (assign c.id c (company_of c.company_id h.clients))
          h.clients)
      ∙ lookup-assign c.id c (company_of c.company_id h.clients)

  -- If the loop takes the departure of a client before its arrival, which stand in separate queues,
  -- the client is registered in the end.
  pub register_late :
      (c : Client) (h : Hub M)
      → lookup c.id (company_of c.company_id (register c (unregister c h)).clients) ≡ some c
  register_late c h = lookup-register c (unregister c h)
