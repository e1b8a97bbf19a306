-- ===== src/Scheduler/Labels.antt =====
-- The labels of the nodes, and the selectors of pods.
use podman_swarm.Base.{
  ℕ, ◌≡◌, ◌≢◌, refl, sym, subst, ◌∙◌, ap, true, Option, none, some, List, [], ◌∷◌, All, In,
  In_of_All, ok, inl, inr, arith,
}
use podman_swarm.Base.Text.{Text, ◌==◌, eq_iff}
use podman_swarm.Base.Map.{Map, lookup, insert, delete}
use podman_swarm.Types.{Pod, Node}
use podman_swarm.Cluster.{
  Event, joined, left, updated, labelled, handle, handle_all, notify_join, notify_leave,
  notify_update, ready_node, readdress, change, get_nodes,
}
use podman_swarm.Scheduler.{text_of, matches, schedule_pod, Scheduled}
use podman_swarm.Scheduler.Placement.{schedule_pod_lem}

-- The events that memberlist reports: all but the setting of labels.
abbrev pub IsReported : Event → Type 0
IsReported (labelled name labels) = ⊥
IsReported e = Unit

abbrev IsBare : Node → Type 0
IsBare node = node.labels ≡ []

abbrev AllBare : Map Node → Type 0
AllBare nodes = All IsBare (get_nodes nodes)

insert-AllBare :
    (k : Text) (node : Node) (nodes : Map Node)
    → IsBare node
    → AllBare nodes
    → AllBare (insert k node nodes)
unfolding insert
insert-AllBare k node [] b v = (b, tt)
insert-AllBare k node ((j, x) ∷ nodes) b v = ground (arith, insert-AllBare k node nodes b v.1)

delete-AllBare : (k : Text) (nodes : Map Node) → AllBare nodes → AllBare (delete k nodes)
unfolding delete
delete-AllBare k [] v = tt
delete-AllBare k ((j, x) ∷ nodes) v = ground (arith, delete-AllBare k nodes v.1)

lookup-AllBare :
    (k : Text) (nodes : Map Node) (node : Node)
    → AllBare nodes
    → lookup k nodes ≡ some node
    → IsBare node
unfolding lookup
lookup-AllBare k [] node v h = cc
lookup-AllBare k ((j, x) ∷ nodes) node v h = ground (arith, lookup-AllBare k nodes node v.1)

handle-AllBare :
    (e : Event) (nodes : Map Node) → IsReported e → AllBare nodes → AllBare (handle e nodes)
unfolding handle notify_join notify_leave notify_update
handle-AllBare (joined name address) nodes r v =
    insert-AllBare name (ready_node name address) nodes refl v
handle-AllBare (left name) nodes r v = delete-AllBare name nodes v
handle-AllBare (labelled name labels) nodes r v = absurd r
handle-AllBare (updated name address) nodes r v = by_entry (lookup name nodes) refl
  where
    by_entry :
        (o : Option Node)
        → lookup name nodes ≡ o
        → AllBare (change name (readdress address) o nodes)
    by_entry none at = v
    by_entry (some node) at =
        insert-AllBare name (readdress address node) nodes (lookup-AllBare name nodes node v at) v

handle_all-AllBare :
    (events : List Event) (nodes : Map Node)
    → All IsReported events
    → AllBare nodes
    → AllBare (handle_all events nodes)
unfolding handle_all
handle_all-AllBare [] nodes r v = v
handle_all-AllBare (e ∷ events) nodes r v =
    handle_all-AllBare events (handle e nodes) r.1 (handle-AllBare e nodes r.0 v)

bare_mismatch :
    (selector : Map Text) (k v : Text) (node : Node)
    → In (k, v) selector
    → v ≢ []
    → IsBare node
    → matches selector node ≡ true
    → ⊥
unfolding lookup
bare_mismatch [] k v node i n b h = elim i [ ]
bare_mismatch ((j, w) ∷ selector) k v node (inl e) n b h =
    let first : (text_of (lookup j node.labels) == w) ≡ true = ground arith in
    let blank : ([] == w) ≡ true = subst (λ l. (text_of (lookup j l) == w) ≡ true) b first in
    n (ap (λ x. x.1) e ∙ sym ((eq_iff [] w).0 blank))
bare_mismatch ((j, w) ∷ selector) k v node (inr i) n b h =
    bare_mismatch selector k v node i n b (ground arith)

-- On the nodes that memberlist reports, a pod whose selector asks for a label with a text is never
-- scheduled: the labels of a node are empty from its join on, until someone sets them.
selector_never_schedules :
    (events : List Event) (random : ℕ → ℕ) (pod : Pod) (pods : Map Pod) (k v : Text)
    → All IsReported events
    → In (k, v) pod.node_selector
    → v ≢ []
    → (r : Scheduled) → schedule_pod random (get_nodes (handle_all events [])) pod pods ≢ ok r
selector_never_schedules events random pod pods k v reported i n r h =
    let (node, m, s, name, same, table) =
      schedule_pod_lem random (get_nodes (handle_all events [])) pod pods r h in
    let bare = handle_all-AllBare events [] reported tt in
    bare_mismatch pod.node_selector k v node i n
      (In_of_All IsBare (get_nodes (handle_all events [])) node bare m) s
