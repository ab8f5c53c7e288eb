-- ===== src/Offchain/Fetcher/Traffic.antt =====
-- The requests that a fetch sends.
use mathlib.Core.Path.{subst}
use polkadot_confidential_of.Base.{◌≡◌, ◌⊎◌, ◌∙◌, sym, ap, inl, inr, String, [], ◌∷◌, ◌++◌, Ended}
use polkadot_confidential_of.Utf8.{Bytes}
use polkadot_confidential_of.Offchain.{persistent, Host}
use polkadot_confidential_of.Offchain.Laws.{TrafficLaws}
use polkadot_confidential_of.Offchain.Fetcher.{HttpRequest, build, fetch_string}
use polkadot_confidential_of.Offchain.Fetcher.Requests.{
  Exchange, unsent, unanswered, refused, answered, trapped_send, trapped_wait, fetch-Exchange,
  fetch_string_world,
}

module _ (h : Host) (traffic : TrafficLaws h) where
  open h use {World, Request, Pending, Response, HttpError, local_storage_get, send, wait, body}
  open traffic use {sent}

  -- At most this request has been sent, and the persistent storage is the same.
  pub record Sends (r : Request) (w v : World) : Type 0 where
    pub at_most : (sent v ≡ sent w) ⊎ (sent v ≡ sent w ++ r ∷ [])
    pub same_storage :
        (k : Bytes) → local_storage_get persistent k v ≡ local_storage_get persistent k w

  then_same :
      (r : Request) (w v u : World)
      → Sends r w v
      → sent u ≡ sent v
      → ((k : Bytes) → local_storage_get persistent k u ≡ local_storage_get persistent k v)
      → Sends r w u
  then_same r w v u s same kept = record {
    at_most = elim s.at_most [ inl e ↦ inl (same ∙ e) | inr e ↦ inr (same ∙ e) ];
    same_storage = λ k. kept k ∙ s.same_storage k;
  }

  after_send :
      (r : Request) (w : World) {x : Ended HttpError Pending × World} → send r w ≡ x → Sends r w x.1
  after_send r w e = record {
    at_most = elim (traffic.send_sent r w) [
      | inl q ↦ inl (ap (λ x. sent x.1) (sym e) ∙ q)
      | inr q ↦ inr (ap (λ x. sent x.1) (sym e) ∙ q)
    ];
    same_storage =
        λ k. ap (λ x. local_storage_get persistent k x.1) (sym e) ∙ traffic.send_get k r w;
  }

  after_wait :
      (r : Request) (w w' : World) (p : Pending) {x : Ended HttpError Response × World}
      → Sends r w w'
      → wait p w' ≡ x
      → Sends r w x.1
  after_wait r w w' p {x} s e =
      then_same r w w' x.1 s (ap (λ y. sent y.1) (sym e) ∙ traffic.wait_sent p w')
        (λ k. ap (λ y. local_storage_get persistent k y.1) (sym e) ∙ traffic.wait_get k p w')

  Exchange-Sends :
      (r : Request) (w : World) {x : Ended String Bytes × World} → Exchange h r w x → Sends r w x.1
  Exchange-Sends r w (unsent e) = after_send r w e
  Exchange-Sends r w (unanswered {p} {w'} e f) = after_wait r w w' p (after_send r w e) f
  Exchange-Sends r w (refused {p} {w'} e f other) = after_wait r w w' p (after_send r w e) f
  Exchange-Sends r w (answered {p} {q} {w'} {w''} e f done) =
      then_same r w w'' (body q w'').1 (after_wait r w w' p (after_send r w e) f)
        (traffic.body_sent q w'') (λ k. traffic.body_get k q w'')
  Exchange-Sends r w (trapped_send e) = after_send r w e
  Exchange-Sends r w (trapped_wait {p} {w'} e f) = after_wait r w w' p (after_send r w e) f

  -- A fetch of a text sends its request at most once, and leaves the persistent storage alone.
  pub fetch_string-Sends :
      (request : HttpRequest) (w : World) → Sends (build h request w) w (fetch_string h request w).1
  fetch_string-Sends request w =
      subst (Sends (build h request w) w) (sym (fetch_string_world h request w))
        (Exchange-Sends (build h request w) w (fetch-Exchange h request w))
