-- ===== src/Notifications/Hub.antt =====
-- services/notification-service/internal/hub/websocket_hub.go: the event loop of the hub. The maps
-- from companies to clients are association lists. A client's channel has a capacity, the
-- messages that wait in it, and is open or closed; the program stops on a send to a closed channel
-- and on a second close.
pub mod Members
pub mod Invariant
pub mod Isolation
mod Examples
use goshield.Prelude.{
  ℕ, String, Bool, true, false, ◌&&◌, ◌||◌, not, Option, none, some, List, [], ◌∷◌, ◌++◌, ◌==◌, ltb,
  eqb, length, if◌then◌else◌,
}

-- `make(chan []byte, 64)`, of serveWS in internal/handler/websocket.go.
abbrev pub send_capacity : ℕ
send_capacity = 64

-- A `Client`; its `Send` channel is named by its id, since serveWS draws a new id with each
-- channel that it makes.
pub record Client : Type 0 where
  pub id : String
  pub company_id : String

-- The entries of `clients[company]`, and `clients`.
abbrev pub Company : Type 0
Company = List (String × Client)

abbrev pub Companies : Type 0
Companies = List (String × Company)

pub record Channel (M : Type 0) : Type 0 where
  pub waiting : List M
  pub is_open : Bool

-- The hub with the channels of its clients, and whether a goroutine has panicked.
pub record Hub (M : Type 0) : Type 0 where
  pub clients : Companies
  pub channels : String → Channel M
  pub panicked : Bool

-- `m[key]`, if it is there.
pub lookup : {V : Type 0} → String → List (String × V) → Option V
lookup k [] = none
lookup k ((j, v) ∷ m) = if j == k then some v else lookup k m

-- `delete(m, key)`
unfoldable pub remove : {V : Type 0} → String → List (String × V) → List (String × V)
remove k [] = []
remove k ((j, v) ∷ m) = let rest = remove k m in if j == k then rest else (j, v) ∷ rest

-- `m[key] = value`
abbrev pub assign : {V : Type 0} → String → V → List (String × V) → List (String × V)
assign k v m = (k, v) ∷ remove k m

-- `h.clients[companyID]`, which is nil without an entry.
pub company_of : String → Companies → Company
unfolding lookup
company_of k m = elim (lookup k m) [ none ↦ [] | some c ↦ c ]

-- The company without the client; the company goes when it was the last.
pub prune : String → Company → Companies → Companies
prune k [] m = remove k m
prune k (e ∷ es) m = assign k (e ∷ es) m

module _ {M : Type 0} where
  pub set_channel : String → Channel M → (String → Channel M) → String → Channel M
  set_channel n c channels k = if k == n then c else channels k

  pub register : Client → Hub M → Hub M
  unfolding company_of
  register c h = record h {
    clients = assign c.company_id (assign c.id c (company_of c.company_id h.clients)) h.clients;
  }

  -- `close(c.Send)`
  pub close : String → Hub M → Hub M
  unfolding set_channel
  close n h =
      if (h.channels n).is_open
      then record h {
        channels =
            set_channel n (record { waiting = (h.channels n).waiting; is_open = false }) h.channels;
      }
      else record h { panicked = true }

  pub leave : Client → Company → Option Client → Hub M → Hub M
  unfolding prune close
  leave c company none h = record h { clients = prune c.company_id company h.clients }
  leave c company (some _) h =
      close c.id (record h { clients = prune c.company_id (remove c.id company) h.clients })

  pub depart : Client → Option Company → Hub M → Hub M
  unfolding leave
  depart c none h = h
  depart c (some company) h = leave c company (lookup c.id company) h

  pub unregister : Client → Hub M → Hub M
  unfolding depart
  unregister c h = depart c (lookup c.company_id h.clients) h

  -- `select { case c.Send <- bytes: default: }`: a full channel drops the message.
  pub offer : M → String → Hub M → Hub M
  unfolding set_channel
  offer bytes n h =
      if not (h.channels n).is_open
      then record h { panicked = true }
      else if not (ltb (length (h.channels n).waiting) send_capacity)
      then h
      else record h {
        channels =
            set_channel n
              (record { waiting = (h.channels n).waiting ++ bytes ∷ []; is_open = true })
              h.channels;
      }

  pub offer_all : M → Company → Hub M → Hub M
  unfolding offer
  offer_all bytes [] h = h
  offer_all bytes ((_, c) ∷ cs) h = offer_all bytes cs (offer bytes c.id h)

  pub broadcast : String → M → Hub M → Hub M
  unfolding offer_all
  broadcast company bytes h = offer_all bytes (company_of company h.clients) h

  pub client_count : String → Hub M → ℕ
  client_count company h = length (company_of company h.clients)

  pub taken : String → List M → Hub M → Hub M
  unfolding set_channel
  taken i [] h = h
  taken i (m ∷ ms) h = record h {
    channels = set_channel i (record { waiting = ms; is_open = (h.channels i).is_open }) h.channels;
  }

  -- The write pump takes the first message that waits.
  pub receive : String → Hub M → Hub M
  unfolding taken
  receive i h = taken i (h.channels i).waiting h
