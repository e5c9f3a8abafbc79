-- ===== src/Client/Publishing/Healing.antt =====
-- How a publish recovers when the memoized topic was deleted by another process.
use novaque.Prelude.{
  ℕ, String, ◌≡◌, refl, ap, ◌∙◌, inl, inr, none, some, List, [], ◌∷◌, str_eq, str_eq_iff,
  Bool-cases,
}
use novaque.Prelude.Int.{pos}
use novaque.Store.Errors.{Result, ok, err, topic_gone}
use novaque.Store.Delay.{validate_publish_delay}
use novaque.Store.Interface.{Store}
use novaque.Store.Cache.{
  Cached, load, insert, invalidate_topic, through, or_ensure_topic, ensure_topic,
}
use novaque.Store.Cache.Sweep.{load-missed}
use novaque.Action.{Action, pure, lift, gets, attempt, update, >>=-ok, ◌>>=◌}
use novaque.Client.Options.{Options}
use novaque.Client.Publishing.{MessageOpts, store_opts, send, heal, publish}

load-insert :
    (k : String) (v : ℕ) (es : List (String × ℕ)) → load str_eq k (insert str_eq k v es) ≡ some v
unfolding load insert
load-insert k v [] = rw ((str_eq_iff k k).1 refl) refl
load-insert k v ((j, w) ∷ es) = elim (Bool-cases (str_eq j k)) [
  | inl e ↦ rw (e, insert, load, (str_eq_iff k k).1 refl) refl
  | inr e ↦ rw (e, insert, load, e) (load-insert k v es)
]

module _ {S : Type 0} (inner : Store S) (opts : Options) where
  ensure_topic-hit :
      (topic : String) (s : Cached S) (id : ℕ)
      → load str_eq topic s.topics ≡ some id
      → ensure_topic inner topic s ≡ (ok id, s)
  unfolding ensure_topic or_ensure_topic gets ◌>>=◌ pure
  ensure_topic-hit topic s id h = rw h refl

  ensure_topic-miss :
      (topic : String) (s : Cached S) (id : ℕ) (i : S)
      → load str_eq topic s.topics ≡ none
      → inner.ensure_topic topic s.inner ≡ (ok id, i)
      → ensure_topic inner topic s
        ≡ (ok id, record s { topics = insert str_eq topic id s.topics; inner = i })
  unfolding ensure_topic or_ensure_topic gets ◌>>=◌ pure update through
  ensure_topic-miss topic s id i h k = rw (h, k) refl

  send-runs :
      (id : ℕ) (body : List ℕ) (po : _) (s : Cached S) (r : Result ℕ) (i : S)
      → inner.publish (pos id) body po s.inner ≡ (r, i)
      → send inner opts id body po s ≡ (r, record s { inner = i })
  unfolding send through
  send-runs id body po s r i h = rw h refl

  after_ensure : ℕ → String → List ℕ → MessageOpts → ℕ → Action (Cached S) ℕ
  after_ensure now topic body m id = lift (validate_publish_delay (store_opts opts m) now) >>= λ _.
      (attempt (send inner opts id body (store_opts opts m))
        >>= heal inner opts topic body (store_opts opts m))

  -- A publish with an acceptable delay whose memoized topic id is gone asks the store for the topic again, although the id was
  -- memoized, sends the message once more under the new id, returns what that attempt returns, and
  -- remembers the new id.
  pub publish-heals :
      (now : ℕ) (topic : String) (body : List ℕ) (m : MessageOpts) (s : Cached S) (id id' : ℕ)
      (i1 i2 i3 : S) (r : Result ℕ)
      → validate_publish_delay (store_opts opts m) now ≡ ok tt
      → load str_eq topic s.topics ≡ some id
      → inner.publish (pos id) body (store_opts opts m) s.inner ≡ (err topic_gone, i1)
      → inner.ensure_topic topic i1 ≡ (ok id', i2)
      → inner.publish (pos id') body (store_opts opts m) i2 ≡ (r, i3)
      → let done = publish inner opts now topic body m s in
        (done.0 ≡ r) × (done.1.inner ≡ i3) × (load str_eq topic done.1.topics ≡ some id')
  unfolding publish heal send after_ensure invalidate_topic attempt lift update ◌>>=◌
  publish-heals now topic body m s id id' i1 i2 i3 r valid memo gone again sent =
      let po = store_opts opts m in
      let s1 = record s { inner = i1 } in
      let s2 = invalidate_topic topic s1 in
      let s3 = record s2 { topics = insert str_eq topic id' s2.topics; inner = i2 } in
      let forgotten = load-missed str_eq topic (λ n. str_eq n topic) s.topics (λ n e. e) in
      let chain =
        >>=-ok (ensure_topic inner topic) (after_ensure now topic body m) s s id
          (ensure_topic-hit topic s id memo)
        ∙ >>=-ok (lift (validate_publish_delay po now))
            (λ _. attempt (send inner opts id body po) >>= heal inner opts topic body po) s s tt
            (ap (λ (v : Result Unit). (v, s)) valid)
        ∙ >>=-ok (attempt (send inner opts id body po)) (heal inner opts topic body po) s s1
            (err topic_gone)
            (ap (λ (z : Result ℕ × Cached S). (ok z.0, z.1))
              (send-runs id body po s (err topic_gone) i1 gone))
        ∙ >>=-ok (ensure_topic inner topic) (λ i. send inner opts i body po) s2 s3 id'
            (ensure_topic-miss topic s2 id' i2 forgotten again)
        ∙ send-runs id' body po s3 r i3 sent in
      rw chain (refl, refl, load-insert topic id' s2.topics)
