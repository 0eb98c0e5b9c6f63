-- ===== src/Mq/Topology.antt =====
-- The routes that a service's publisher declares at the broker, and the routes it publishes to.
use device_ops.Prelude.{Bool, true, false, ◌&&◌, ◌||◌, ◌≡◌, All, List, [], ◌∷◌}
use device_ops.Str.{Str, str_eq}
use device_ops.Mq.{Route, Publication, routes_for_source}

abbrev same_route : Route → Route → Bool
same_route r q =
    str_eq r.exchange q.exchange && str_eq r.queue q.queue && str_eq r.routing_key q.routing_key

abbrev pub has_route : Route → List Route → Bool
has_route r [] = false
has_route r (q ∷ qs) = same_route r q || has_route r qs

-- The broker has an exchange and a queue for each publication that a service asks for.
abbrev pub IsRouted : {D : Type 0} → Str → List (Publication D) → Type 0
IsRouted source publications =
    All (λ p. has_route p.route (routes_for_source source) ≡ true) publications
