-- ===== src/Tests/Routing.antt =====
-- The theorems on the choice of a broker at inputs that meet their hypotheses.
use solace_broker_autoscale.Routing.Choice.{Accepted}
use solace_broker_autoscale.Customer.Library.{RoutingHashPolicy}
use solace_broker_autoscale.Prelude.{
  List, Memᴰ, [], bool_eq, list_eq, nat_eq, ok, option_eq, pair_eq, refl, some, ◌↔◌, ◌∷◌, ◌≡◌,
}
use solace_broker_autoscale.Routing.Choice.{
  Beats, rendezvous_broker-Accepted_iff, rendezvous_broker-best, rendezvous_broker-stable,
}
use solace_broker_autoscale.Routing.Rendezvous.{choose, rendezvous_broker, score_of}
use solace_broker_autoscale.Text.{Bytes, bytes}

-- The score of a broker is its name.
abbrev by_name : RoutingHashPolicy
by_name = record { get_rendezvous_score = λ i. ok i.broker_id; routing_algorithm = bytes "name" }

abbrev three : List Bytes
three = bytes "a" ∷ bytes "c" ∷ bytes "b" ∷ []

abbrev two : List Bytes
two = bytes "b" ∷ bytes "c" ∷ []

of_three : rendezvous_broker (some by_name) (bytes "g") (bytes "h") three ≡ ok (bytes "c")
unfolding rendezvous_broker choose
of_three = refl

of_two : rendezvous_broker (some by_name) (bytes "g") (bytes "h") two ≡ ok (bytes "c")
unfolding rendezvous_broker choose
of_two = refl

two_of_three : (m : Bytes) → Memᴰ m two → Memᴰ m three
two_of_three m (Memᴰ.head e) = Memᴰ.tail (Memᴰ.tail (Memᴰ.head e))
two_of_three m (Memᴰ.tail (Memᴰ.head e)) = Memᴰ.tail (Memᴰ.head e)
two_of_three m (Memᴰ.tail (Memᴰ.tail at)) = elim at [ ]

rendezvous_broker-best_example :
    (h : Bytes) × (score_of by_name (bytes "g") (bytes "h") (bytes "c") ≡ some h)
    × Memᴰ (bytes "c") three
    × Beats (score_of by_name (bytes "g") (bytes "h")) h (bytes "c") three
rendezvous_broker-best_example =
    rendezvous_broker-best by_name (bytes "g") (bytes "h") three (bytes "c") of_three

rendezvous_broker-stable_example : bytes "c" ≡ bytes "c"
rendezvous_broker-stable_example =
    rendezvous_broker-stable by_name (bytes "g") (bytes "h") three two (bytes "c") (bytes "c")
      of_three of_two two_of_three (Memᴰ.tail (Memᴰ.head refl))

rendezvous_broker-Accepted_iff_example :
    ((b : Bytes) × (rendezvous_broker (some by_name) (bytes "g") (bytes "h") three ≡ ok b))
    ↔ Accepted (score_of by_name (bytes "g") (bytes "h")) three
rendezvous_broker-Accepted_iff_example =
    rendezvous_broker-Accepted_iff by_name (bytes "g") (bytes "h") three refl
