-- ===== src/Queue/Pubsub.antt =====
-- internal/queue/gcp-pubsub.go. The Pub/Sub client and gob are third-party code, taken as the
-- parameter `Service`.
pub mod Publish
pub mod Running
use gopherci.Common.{
  ℕ, zero, suc, ◌+◌, ◌-◌, ◌≡◌, Bool, true, false, ◌||◌, List, [], ◌∷◌, ◌++◌, Option, none, some,
  Bytes, lit, Result, ok, err, panic, Go, ask, pure, fail, check, wrapping, ◌>>=◌, ◌>>◌, Error,
  message, wrap, to_result, if◌then◌else◌, ◌==◌, bytes_eq,
}

abbrev pub version : Bytes
version = lit "1"

abbrev pub default_sub_name : Bytes
default_sub_name = lit "worker"

abbrev pub default_topic_name : Bytes
default_topic_name = lit "gopherci-ci"

-- `grpc.Code(err)`
pub data Code : Type 0 where
  code_ok already_exists other : Code

pub data PubsubCall : Type 0 where
  new_client : (project_id : Bytes) → PubsubCall
  create_topic : (name : Bytes) → PubsubCall
  create_subscription : (name topic : Bytes) → PubsubCall
  publish : (msg : Bytes) → PubsubCall
  sleep : (seconds : ℕ) → PubsubCall
  ack : PubsubCall
  process : (job : Bytes) → PubsubCall
  delete_subscription : (name : Bytes) → PubsubCall
  delete_topic : PubsubCall

-- A creation answers with an error and its code. A job is known here by its encoding; `encode` is
-- gob's encoder on a container and `decode` its decoder. `subscriptions` are the topic's, up to the
-- first error of the iterator, and `deleted` the errors of deletions, which are only logged.
pub record Service : Type 0 where
  pub client : List PubsubCall → Option Error
  pub topic : List PubsubCall → Bytes → Code × Error
  pub subscription : List PubsubCall → Bytes → Code × Error
  pub publish_result : List PubsubCall → Bytes → Option Error
  pub encode : Bytes → Result Bytes
  pub decode : Bytes → Result Bytes
  pub subscriptions : List Bytes
  pub deleted : List PubsubCall → Option Error

-- `NewGCPPubSubQueue` changes an empty topic name to the default and appends the version.
unfoldable pub full_topic_name : Bytes → Bytes
full_topic_name topic_name =
    (if topic_name == [] then default_topic_name else topic_name) ++ (lit "-v" ++ version)

unfoldable pub sub_name : Bytes → Bytes
unfolding full_topic_name
sub_name topic_name = full_topic_name topic_name ++ (lit "-" ++ default_sub_name)

-- `code != codes.OK && code != codes.AlreadyExists`
unfoldable pub creation_error : Code × Error → Option Error
creation_error (code_ok, e) = none
creation_error (already_exists, e) = none
creation_error (other, e) = some e

-- A queue: the names of its topic and of its subscription.
pub record PubsubQueue : Type 0 where
  pub topic : Bytes
  pub subscription : Bytes

module _ (service : Service) where
  unfoldable pub new_queue : (project_id topic_name : Bytes) → Go PubsubCall PubsubQueue
  unfolding full_topic_name sub_name creation_error
  new_queue project_id topic_name =
      if project_id == [] then fail (message (lit "projectID must not be empty")) else (do
        e ← ask (new_client project_id) (λ h. ok (service.client h))
        check e (λ x. wrap x (lit "could not create client")) (pure tt)
        let topic = full_topic_name topic_name
        t ← ask (create_topic topic) (λ h. ok (service.topic h topic))
        check (creation_error t) (λ x. wrap x (lit "could not create topic")) (pure tt)
        let sub = sub_name topic_name
        s ← ask (create_subscription sub topic) (λ h. ok (service.subscription h sub))
        check (creation_error s) (λ x. wrap x (lit "could not create subscription")) (pure tt)
        pure (record { topic = topic; subscription = sub }))

  abbrev pub max_attempts : ℕ
  max_attempts = 3

  -- The loop of `queue` from attempt `i`, with `left` attempts to go and `last` the error of the
  -- attempt before. After a failed attempt, the last one included, it sleeps for i seconds.
  unfoldable pub attempts : Bytes → ℕ → ℕ → Option Error → Go PubsubCall (Option Error)
  attempts msg i zero last = pure last
  attempts msg i (suc left) last = do
    e ← ask (publish msg) (λ h. ok (service.publish_result h msg))
    elim e [
      | none ↦ pure none
      | some x ↦ (ask (sleep i) (λ _. ok (tt {0})) >> attempts msg (i + 1) left (some x))
    ]

  -- `queue`
  unfoldable pub enqueue : Bytes → Go PubsubCall (Unit {0})
  unfolding attempts
  enqueue job = do
    msg ← wrapping (lit "could not gob encode job") (λ h. (service.encode job, h))
    e ← attempts msg 1 max_attempts none
    check e (λ x. wrap x (lit "could not publish job")) (pure tt)

  abbrev processed : Result Bytes → Go PubsubCall (Unit {0})
  processed (ok job) h = ask (process job) (λ _. ok tt) h
  processed (err e) h = pure tt h
  processed (panic m) h = (panic m, h)

  -- The callback of `receive`: the message is acknowledged before it is decoded.
  unfoldable pub on_message : Bytes → Go PubsubCall (Unit {0})
  on_message msg = ask ack (λ _. ok (tt {0})) >> processed (service.decode msg)

  abbrev delete_each : List Bytes → Go PubsubCall (Unit {0})
  delete_each [] = pure tt
  delete_each (name ∷ names) = do
    ask (delete_subscription name) (λ h. ok (service.deleted h))
    delete_each names

  -- `delete`
  unfoldable pub delete : Go PubsubCall (Unit {0})
  delete = do
    delete_each service.subscriptions
    ask delete_topic (λ h. ok (service.deleted h))
    pure tt
