-- ===== src/Idempotency.antt =====
-- apps/api/src/idempotency: the key store of idempotency.service.ts and the order of steps of
-- idempotency.interceptor.ts. The handler is an argument, which gives the status and the body of its
-- answer, also of an HTTP exception, or fails with another error; that it has run for a request is
-- kept in the state. The lock is the one in Redis.
pub mod Laws
pub mod Replay
use Prim.Native.Char.{code}
use restaurant_reservation_s.Prelude.{
  ℕ, ◌+◌, Bool, true, false, ◌&&◌, ◌||◌, not, Option, none, some, List, [], ◌∷◌, ◌++◌, String, any,
  find, filter, is_empty, ltb, leb, ◌==◌, ◌!=◌, nat_eq, string_eq, if◌then◌else◌, when_found,
}

abbrev pub entry_ttl_ms : ℕ
entry_ttl_ms = 86_400_000

abbrev pub lock_ttl_ms : ℕ
lock_ttl_ms = 30_000

-- `RequestMetadata`
pub record RequestMetadata : Type 0 where
  pub key : String
  pub method : String
  pub path : String
  pub body_hash : String

pub record IdempotencyRecord : Type 0 where
  pub id : String
  pub method : String
  pub path : String
  pub body_hash : String
  pub status : ℕ
  pub body : String
  pub expires_at : ℕ

pub record Lock : Type 0 where
  pub key : String
  pub expires_at : ℕ

pub record Server : Type 0 where
  pub entries : List IdempotencyRecord
  pub locks : List Lock
  pub handled : List RequestMetadata

pub data Reply : Type 0 where
  replayed handled_now : ℕ → String → Reply
  different_route different_payload in_progress failed_now : Reply

-- What the handler does: an answer or an HTTP exception, which both have a status and a body, or any
-- other error.
pub data Outcome : Type 0 where
  answered : ℕ → String → Outcome
  failed : Outcome

-- `stripQuery` of a path that is not empty.
unfoldable pub strip_query : String → String
strip_query String.[] = String.[]
strip_query (String.◌∷◌ c s) =
    let rest = strip_query s in if code c == 63 then String.[] else String.◌∷◌ c rest

-- `findEntry`: the row, where it has not run out; one that has is deleted.
unfoldable pub find_live : ℕ → List IdempotencyRecord → String → Option IdempotencyRecord
find_live now entries id =
    when_found (find (λ e. e.id == id) entries) none
      λ e. if leb e.expires_at now then none else some e

unfoldable pub without_expired : ℕ → List IdempotencyRecord → String → List IdempotencyRecord
without_expired now entries id =
    when_found (find (λ e. e.id == id) entries) entries
      λ e. if leb e.expires_at now then filter (λ x. x.id != id) entries else entries

-- What the interceptor answers where it finds an entry.
unfoldable pub reply_from : RequestMetadata → IdempotencyRecord → Reply
unfolding strip_query
reply_from q e =
    if e.method != q.method || strip_query e.path != strip_query q.path
    then Reply.different_route
    else if e.body_hash != q.body_hash
    then Reply.different_payload
    else Reply.replayed e.status e.body

-- The first step: a reply from an entry, or none where the request goes on.
unfoldable pub look_up : ℕ → Server → RequestMetadata → Option Reply × Server
unfolding find_live without_expired reply_from
look_up now s q = (
  when_found (find_live now s.entries q.key) none (λ e. some (reply_from q e)),
  record s { entries = without_expired now s.entries q.key },
)

-- `SET key 1 PX ttl NX`
unfoldable pub is_locked : ℕ → Server → String → Bool
is_locked now s key = any (λ l. l.key == key && ltb now l.expires_at) s.locks

abbrev pub acquire_lock : ℕ → Server → String → Server
acquire_lock now s key = record s {
  locks = record { key = key; expires_at = now + lock_ttl_ms } ∷ filter (λ l. l.key != key) s.locks;
}

abbrev pub release_lock : Server → String → Server
release_lock s key = record s { locks = filter (λ l. l.key != key) s.locks }

-- `storeResponse`: a row that is there already stays.
unfoldable pub store_response : ℕ → Server → RequestMetadata → ℕ → String → Server
store_response now s q status body = if any (λ e. e.id == q.key) s.entries then s else record s {
  entries =
      record {
        id = q.key;
        method = q.method;
        path = q.path;
        body_hash = q.body_hash;
        status = status;
        body = body;
        expires_at = now + entry_ttl_ms;
      }
      ∷ s.entries;
}

-- `persistSuccess` and `persistFailure`: an error that is no HTTP exception stores nothing.
unfoldable pub persist : ℕ → Server → RequestMetadata → Outcome → Server
unfolding store_response
persist now s q (Outcome.answered status body) = store_response now s q status body
persist now s q Outcome.failed = s

abbrev pub reply_of : Outcome → Reply
reply_of (Outcome.answered status body) = Reply.handled_now status body
reply_of Outcome.failed = Reply.failed_now

-- The second step: the lock, the handler, the stored answer, and the release.
unfoldable pub handle : (RequestMetadata → Outcome) → ℕ → Server → RequestMetadata → Reply × Server
unfolding is_locked persist
handle handler now s q =
    if is_locked now s q.key
    then (Reply.in_progress, s)
    else let outcome = handler q in
      let locked = acquire_lock now s q.key in
      let ran = record locked { handled = q ∷ locked.handled } in
      (reply_of outcome, release_lock (persist now ran q outcome) q.key)

-- Both steps without another request in between.
unfoldable pub intercept :
    (RequestMetadata → Outcome) → ℕ → Server → RequestMetadata → Reply × Server
unfolding look_up handle
intercept handler now s q =
    let looked = look_up now s q in
    when_found looked.0 (handle handler now looked.1 q) (λ reply. (reply, looked.1))

-- A request as it comes to the interceptor, with what the handler does then.
pub record Arrival : Type 0 where
  pub handler : RequestMetadata → Outcome
  pub now : ℕ
  pub request : RequestMetadata

unfoldable pub serve : Server → List Arrival → Server
unfolding intercept
serve s [] = s
serve s (a ∷ later) = serve (intercept a.handler a.now s a.request).1 later
