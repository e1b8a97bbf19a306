-- ===== src/Api/Services/Endpoints.antt =====
-- The endpoints of a service through its application and its deletion.
use podman_swarm.Base.{
  ℕ, ◌≡◌, ◌≢◌, ◌⊎◌, inl, inr, refl, sym, subst, ◌∙◌, true, false, Option, none, some, List, ◌∷◌, In,
  Bool-cases, arith, if◌then◌else◌,
}
use podman_swarm.Base.Text.{Text, ◌==◌, eq_iff, eq_refl}
use podman_swarm.Base.Map.{Map}
use podman_swarm.Kube.{ServiceObject}
use podman_swarm.Types.{Pod, Service, Node}
use podman_swarm.Discovery.{
  ServiceEndpoint, Registry, service_key, endpoint_id, endpoint_for, registered_endpoint, find_at,
}
use podman_swarm.Discovery.Triples.{find_at-put, id-injective}
use podman_swarm.Api.Services.{matches_selector}

-- The endpoint of a service for the pod of an id.
abbrev pub endpoint_of : Service → Text → Registry → Option ServiceEndpoint
endpoint_of svc id =
    find_at (service_key svc.name svc.namespace) (endpoint_id svc.namespace svc.name id)

pub same_id :
    (svc : Service) (i j : Text)
    → (endpoint_id svc.namespace svc.name i == endpoint_id svc.namespace svc.name j) ≡ (i == j)
same_id svc i j = elim (Bool-cases (i == j)) [
  | inl e ↦ rw e (rw ((eq_iff i j).0 e) (eq_refl (endpoint_id svc.namespace svc.name j)))
  | inr e ↦
      elim (Bool-cases
        (endpoint_id svc.namespace svc.name i == endpoint_id svc.namespace svc.name j)) [
          | inl f ↦
              let same = id-injective svc.namespace svc.name i j ((eq_iff _ _).0 f) in
              absurd (ground (arith, eq_iff i j))
          | inr f ↦ f ∙ sym e
        ]
]

pub endpoint_of-register :
    (nodes : Map Node) (t : ℕ) (svc : Service) (pod : Pod) (id : Text) (reg : Registry)
    → endpoint_of svc id (registered_endpoint nodes t svc pod reg)
      ≡ (if pod.id == id then some (endpoint_for nodes t svc pod) else endpoint_of svc id reg)
endpoint_of-register nodes t svc pod id reg =
    let k = service_key svc.name svc.namespace in
    find_at-put k (endpoint_id svc.namespace svc.name pod.id) k
      (endpoint_id svc.namespace svc.name id) (endpoint_for nodes t svc pod) reg
    ∙ rw (eq_refl k, same_id svc pod.id id) refl

-- A pod of the list that the service selects, under the id.
abbrev pub Selected : Service → List Pod → Text → Pod → Type 0
Selected svc pods id p = In p pods × (matches_selector p.labels svc.selector ≡ true) × (p.id ≡ id)

abbrev pub Unselected : Service → List Pod → Text → Type 0
Unselected svc pods id =
    (p : Pod) → In p pods → matches_selector p.labels svc.selector ≡ true → p.id ≢ id

-- The entry is the endpoint of a selected pod with the id, or there is no such pod and it is as before.
abbrev pub Registered :
    Map Node
    → (ℕ → ℕ)
    → Service
    → List Pod
    → Text
    → Option ServiceEndpoint
    → Option ServiceEndpoint
    → Type 0
Registered nodes clock svc pods id before after =
    ((p : Pod) × (i : ℕ) × Selected svc pods id p
      × (after ≡ some (endpoint_for nodes (clock i) svc p)))
    ⊎ (Unselected svc pods id × (after ≡ before))

abbrev pub Deregistered :
    Service → List Pod → Text → Option ServiceEndpoint → Option ServiceEndpoint → Type 0
Deregistered svc pods id before after =
    ((p : Pod) × Selected svc pods id p × (after ≡ none))
    ⊎ (Unselected svc pods id × (after ≡ before))

-- A pod in front that is not selected under the id.
Unselected-cons :
    (svc : Service) (pod : Pod) (pods : List Pod) (id : Text)
    → (matches_selector pod.labels svc.selector ≡ true → pod.id ≢ id)
    → Unselected svc pods id
    → Unselected svc (pod ∷ pods) id
Unselected-cons svc pod pods id here rest p (inl e) =
    subst (λ (q : Pod). matches_selector q.labels svc.selector ≡ true → q.id ≢ id) (sym e) here
Unselected-cons svc pod pods id here rest p (inr m) = rest p m

-- A pod in front that is selected, and whose endpoint the entry then is, if it has the id.
pub Registered-cons :
    (nodes : Map Node) (clock : ℕ → ℕ) (i : ℕ) (svc : Service) (pod : Pod) (pods : List Pod)
    (id : Text) (before after : Option ServiceEndpoint)
    → matches_selector pod.labels svc.selector ≡ true
    → Registered nodes clock svc pods id
        (if pod.id == id then some (endpoint_for nodes (clock i) svc pod) else before)
        after
    → Registered nodes clock svc (pod ∷ pods) id before after
Registered-cons nodes clock i svc pod pods id before after sel (inl (p, j, (m, sel', same), at)) =
    inl (p, j, (inr m, sel', same), at)
Registered-cons nodes clock i svc pod pods id before after sel (inr (others, at)) =
    elim (Bool-cases (pod.id == id)) [
      | inl e ↦ inl (pod, i, (inl refl, sel, (eq_iff pod.id id).0 e), at ∙ rw e refl)
      | inr e ↦ inr (
        Unselected-cons svc pod pods id (λ h same. absurd (ground (arith, eq_iff pod.id id)))
            others,
        at ∙ rw e refl,
      )
    ]

pub Registered-skip :
    (nodes : Map Node) (clock : ℕ → ℕ) (svc : Service) (pod : Pod) (pods : List Pod) (id : Text)
    (before after : Option ServiceEndpoint)
    → matches_selector pod.labels svc.selector ≡ false
    → Registered nodes clock svc pods id before after
    → Registered nodes clock svc (pod ∷ pods) id before after
Registered-skip nodes clock svc pod pods id before after out (inl (p, j, (m, sel, same), at)) =
    inl (p, j, (inr m, sel, same), at)
Registered-skip nodes clock svc pod pods id before after out (inr (others, at)) =
    inr (Unselected-cons svc pod pods id (λ h. cc) others, at)

pub Deregistered-cons :
    (svc : Service) (pod : Pod) (pods : List Pod) (id : Text)
    (before after : Option ServiceEndpoint)
    → matches_selector pod.labels svc.selector ≡ true
    → Deregistered svc pods id (if pod.id == id then none else before) after
    → Deregistered svc (pod ∷ pods) id before after
Deregistered-cons svc pod pods id before after sel (inl (p, (m, sel', same), at)) =
    inl (p, (inr m, sel', same), at)
Deregistered-cons svc pod pods id before after sel (inr (others, at)) =
    elim (Bool-cases (pod.id == id)) [
      | inl e ↦ inl (pod, (inl refl, sel, (eq_iff pod.id id).0 e), at ∙ rw e refl)
      | inr e ↦ inr (
        Unselected-cons svc pod pods id (λ h same. absurd (ground (arith, eq_iff pod.id id)))
            others,
        at ∙ rw e refl,
      )
    ]

pub Deregistered-skip :
    (svc : Service) (pod : Pod) (pods : List Pod) (id : Text)
    (before after : Option ServiceEndpoint)
    → matches_selector pod.labels svc.selector ≡ false
    → Deregistered svc pods id before after
    → Deregistered svc (pod ∷ pods) id before after
Deregistered-skip svc pod pods id before after out (inl (p, (m, sel, same), at)) =
    inl (p, (inr m, sel, same), at)
Deregistered-skip svc pod pods id before after out (inr (others, at)) =
    inr (Unselected-cons svc pod pods id (λ h. cc) others, at)

abbrev pub parsed : ServiceObject → Service
parsed o = record {
  name = o.name;
  namespace = o.namespace;
  type = o.type;
  selector = o.selector;
  ports = o.ports;
  cluster_ip = o.cluster_ip;
  labels = o.labels;
}
