-- ===== src/Idempotency/Laws.antt =====
-- What the two steps of a request do; and the interleaving in which a request is handled twice.
use restaurant_reservation_s.Prelude.{
  ℕ, ◌+◌, ◌<◌, ◌≡◌, refl, sym, ap, ◌∙◌, subst, inl, inr, Bool, false, ◌&&◌, Option, none, some,
  List, [], ◌∷◌, String, any, find, filter, ltb, leb, ◌==◌, ◌!=◌, string_eq, Bool-cases, ==_refl,
  arith, when_found,
}
use restaurant_reservation_s.Idempotency.{
  entry_ttl_ms, RequestMetadata, IdempotencyRecord, Lock, Server, Reply, Outcome, persist,
  lock_ttl_ms, find_live, without_expired, reply_from, look_up, is_locked, store_response, handle,
  intercept, strip_query,
}

-- The entry that handling a request stores.
abbrev pub stored : ℕ → RequestMetadata → ℕ → String → IdempotencyRecord
stored now q status body = record {
  id = q.key;
  method = q.method;
  path = q.path;
  body_hash = q.body_hash;
  status = status;
  body = body;
  expires_at = now + entry_ttl_ms;
}

abbrev pub has_key : String → IdempotencyRecord → Bool
has_key key e = e.id == key

abbrev pub IsNew : Server → RequestMetadata → Type 0
IsNew s q = find (has_key q.key) s.entries ≡ none

none-any {ℓ} : {A : Type ℓ} (p : A → Bool) (l : List A) → find p l ≡ none → any p l ≡ false
none-any p [] h = refl
none-any p (x ∷ l) h = elim (Bool-cases (p x)) [
  | inl e ↦ absurd (let q = rw e at h in cc)
  | inr e ↦ rw e (none-any p l (rw e at h))
]

pub look_up-new :
    (now : ℕ) (s : Server) (q : RequestMetadata) → IsNew s q → look_up now s q ≡ (none, s)
unfolding look_up find_live without_expired
look_up-new now s q n = rw n refl

-- What handling an unlocked new request leaves.
pub handle-new :
    (handler : RequestMetadata → Outcome) (now : ℕ) (s : Server) (q : RequestMetadata) (status : ℕ)
    (body : String)
    → IsNew s q
    → is_locked now s q.key ≡ false
    → handler q ≡ Outcome.answered status body
    → ((handle handler now s q).0 ≡ Reply.handled_now status body)
      × ((handle handler now s q).1.entries ≡ stored now q status body ∷ s.entries)
unfolding handle persist store_response
handle-new handler now s q status body n free answers =
    let absent = none-any (has_key q.key) s.entries n in
    (rw (free, answers) refl, rw (free, answers, absent) refl)

pub look_up-stored :
    (now now' : ℕ) (s : Server) (q r : RequestMetadata) (status : ℕ) (body : String)
    → find (has_key q.key) s.entries ≡ some (stored now q status body)
    → r.key ≡ q.key
    → now' < now + entry_ttl_ms
    → look_up now' s r ≡ (some (reply_from r (stored now q status body)), s)
unfolding look_up find_live without_expired
look_up-stored now now' s q r status body e k t =
    let here : find (has_key r.key) s.entries ≡ some (stored now q status body) =
      ap (λ x. find (has_key x) s.entries) k ∙ e in
    let fresh : leb (now + entry_ttl_ms) now' ≡ false = ground arith in rw here (rw fresh refl)

pub intercept-looked :
    (handler : RequestMetadata → Outcome) (now : ℕ) (s s' : Server) (q : RequestMetadata)
    (o : Option Reply)
    → look_up now s q ≡ (o, s')
    → intercept handler now s q ≡ when_found o (handle handler now s' q) (λ reply. (reply, s'))
unfolding intercept
intercept-looked handler now s s' q o h =
    ap (λ (x : Option Reply × Server). when_found x.0 (handle handler now x.1 q) (λ y. (y, x.1))) h

pub reply_from-same :
    (now : ℕ) (q : RequestMetadata) (status : ℕ) (body : String)
    → reply_from q (stored now q status body) ≡ Reply.replayed status body
unfolding reply_from
reply_from-same now q status body =
    rw (==_refl q.method, ==_refl q.body_hash, ==_refl (strip_query q.path)) refl

released :
    (now : ℕ) (key : String) (l : List Lock)
    → any (λ x. x.key == key && ltb now x.expires_at) (filter (λ x. x.key != key) l) ≡ false
released now key [] = refl
released now key (x ∷ l) = elim (Bool-cases (x.key == key)) [
  | inl e ↦ rw e (released now key l)
  | inr e ↦ rw e (rw e (released now key l))
]

-- What is stored does not change what has been handled, nor the locks.
persist-keeps :
    (now : ℕ) (s : Server) (q : RequestMetadata) (o : Outcome)
    → ((persist now s q o).handled ≡ s.handled) × ((persist now s q o).locks ≡ s.locks)
unfolding persist store_response
persist-keeps now s q Outcome.failed = (refl, refl)
persist-keeps now s q (Outcome.answered status body) =
    elim (Bool-cases (any (has_key q.key) s.entries)) [
      | inl e ↦ (rw e refl, rw e refl)
      | inr e ↦ (rw e refl, rw e refl)
    ]

-- An unlocked request is handled, whatever is stored, and its key is free afterwards.
handle-unlocked :
    (handler : RequestMetadata → Outcome) (now now' : ℕ) (s : Server) (q : RequestMetadata)
    → is_locked now s q.key ≡ false
    → ((handle handler now s q).1.handled ≡ q ∷ s.handled)
      × (is_locked now' (handle handler now s q).1 q.key ≡ false)
unfolding handle is_locked
handle-unlocked handler now now' s q free =
    let ran = record s {
      locks =
          record { key = q.key; expires_at = now + lock_ttl_ms }
          ∷ filter (λ l. l.key != q.key) s.locks;
      handled = q ∷ s.handled;
    } in
    let kept = persist-keeps now ran q (handler q) in
    (rw free kept.0, rw free (released now' q.key (persist now ran q (handler q)).locks))

-- The lock does not close the gap after the first look: where two calls of a new request both look
-- before either is handled, and neither finds a lock, both are handled.
pub handle_twice :
    (handler : RequestMetadata → Outcome) (t1 t2 t3 t4 : ℕ) (s : Server) (q : RequestMetadata)
    → IsNew s q
    → is_locked t3 s q.key ≡ false
    → let looked = (look_up t2 (look_up t1 s q).1 q).1 in
      let first = handle handler t3 looked q in
      let second = handle handler t4 first.1 q in
      ((look_up t1 s q).0 ≡ none)
      × ((look_up t2 (look_up t1 s q).1 q).0 ≡ none)
      × (second.1.handled ≡ q ∷ q ∷ s.handled)
handle_twice handler t1 t2 t3 t4 s q n free =
    let a = look_up-new t1 s q n in
    let state : (look_up t1 s q).1 ≡ s = ap (λ (x : Option Reply × Server). x.1) a in
    let b : look_up t2 (look_up t1 s q).1 q ≡ (none, s) =
      ap (λ x. look_up t2 x q) state ∙ look_up-new t2 s q n in
    let looked : (look_up t2 (look_up t1 s q).1 q).1 ≡ s =
      ap (λ (x : Option Reply × Server). x.1) b in
    let once = handle-unlocked handler t3 t4 s q free in
    let again = handle-unlocked handler t4 t4 (handle handler t3 s q).1 q once.1 in
    (
      ap (λ (x : Option Reply × Server). x.0) a,
      ap (λ (x : Option Reply × Server). x.0) b,
      subst (λ x. (handle handler t4 (handle handler t3 x q).1 q).1.handled ≡ q ∷ q ∷ s.handled)
          (sym looked) (again.0 ∙ ap (λ l. q ∷ l) once.0),
    )
