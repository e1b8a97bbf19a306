-- ===== src/Cluster/Membership.antt =====
-- What the table of nodes holds after the events of memberlist.
use mathlib.Core.Option
use podman_swarm.Base.{◌≡◌, refl, ap, ◌∙◌, Option, none, some, List, [], ◌∷◌, if◌then◌else◌, arith}
use podman_swarm.Base.Text.{Text, ◌==◌, eq_iff}
use podman_swarm.Base.Map.{Map, lookup, lookup-insert, lookup-delete}
use podman_swarm.Base.Map.Distinct.{IsDistinct, insert-IsDistinct, delete-IsDistinct}
use podman_swarm.Types.{Node}
use podman_swarm.Cluster.{
  Event, joined, left, updated, labelled, handle, handle_all, notify_join, notify_leave,
  notify_update, update_node_labels, ready_node, readdress, relabel, change,
}

-- What one event makes of the entry of a name.
pub entry : Text → Event → Option Node → Option Node
entry k (joined name address) o = if name == k then some (ready_node name address) else o
entry k (left name) o = if name == k then none else o
entry k (updated name address) o = if name == k then Option.map (readdress address) o else o
entry k (labelled name labels) o = if name == k then Option.map (relabel labels) o else o

-- The entry of a name after events, by those events alone.
pub entry_after : Text → List Event → Option Node → Option Node
entry_after k [] o = o
entry_after k (e ∷ events) o = entry_after k events (entry k e o)

lookup-change :
    (name k : Text) (f : Node → Node) (nodes : Map Node)
    → lookup k (change name f (lookup name nodes) nodes)
      ≡ (if name == k then Option.map f (lookup k nodes) else lookup k nodes)
lookup-change name k f nodes = by_entry (lookup name nodes) refl
  where
    by_entry :
        (o : Option Node)
        → lookup name nodes ≡ o
        → lookup k (change name f o nodes)
          ≡ (if name == k then Option.map f (lookup k nodes) else lookup k nodes)
    by_entry none at = ground (arith, eq_iff name k)
    by_entry (some node) at = ground (arith, eq_iff name k, lookup-insert name k (f node) nodes)

lookup-handle :
    (k : Text) (e : Event) (nodes : Map Node)
    → lookup k (handle e nodes) ≡ entry k e (lookup k nodes)
unfolding handle notify_join notify_leave notify_update update_node_labels entry
lookup-handle k (joined name address) nodes = lookup-insert name k (ready_node name address) nodes
lookup-handle k (left name) nodes = lookup-delete name k nodes
lookup-handle k (updated name address) nodes = lookup-change name k (readdress address) nodes
lookup-handle k (labelled name labels) nodes = lookup-change name k (relabel labels) nodes

-- After any events, the table holds under each name what the events for that name make of it: a
-- node is known from its join, with the address of its latest update and the labels set since it
-- joined, until it leaves.
pub lookup-handle_all :
    (k : Text) (events : List Event) (nodes : Map Node)
    → lookup k (handle_all events nodes) ≡ entry_after k events (lookup k nodes)
unfolding handle_all entry_after
lookup-handle_all k [] nodes = refl
lookup-handle_all k (e ∷ events) nodes =
    lookup-handle_all k events (handle e nodes)
    ∙ ap (entry_after k events) (lookup-handle k e nodes)

-- The table has distinct names, and every node stands under its own.
pub record IsMembership (nodes : Map Node) : Type 0 where
  pub distinct : IsDistinct nodes
  pub named : (k : Text) (node : Node) → lookup k nodes ≡ some node → node.name ≡ k

change-IsMembership :
    (name : Text) (f : Node → Node) (o : Option Node) (nodes : Map Node)
    → ((node : Node) → (f node).name ≡ node.name)
    → lookup name nodes ≡ o
    → IsMembership nodes
    → IsMembership (change name f o nodes)
change-IsMembership name f none nodes keeps at v = v
change-IsMembership name f (some node) nodes keeps at v = record {
  distinct = insert-IsDistinct name (f node) nodes v.distinct;
  named = λ k x e. ground (
    arith,
    lookup-insert name k (f node) nodes,
    eq_iff name k,
    v.named k x,
    v.named name node,
    keeps node,
  );
}

handle-IsMembership :
    (e : Event) (nodes : Map Node) → IsMembership nodes → IsMembership (handle e nodes)
unfolding handle notify_join notify_leave notify_update update_node_labels
handle-IsMembership (joined name address) nodes v = record {
  distinct = insert-IsDistinct name (ready_node name address) nodes v.distinct;
  named = λ k x e.
      ground
        (arith, lookup-insert name k (ready_node name address) nodes, eq_iff name k, v.named k x);
}
handle-IsMembership (left name) nodes v = record {
  distinct = delete-IsDistinct name nodes v.distinct;
  named = λ k x e. ground (arith, lookup-delete name k nodes, v.named k x);
}
handle-IsMembership (updated name address) nodes v =
    change-IsMembership name (readdress address) (lookup name nodes) nodes (λ node. refl) refl v
handle-IsMembership (labelled name labels) nodes v =
    change-IsMembership name (relabel labels) (lookup name nodes) nodes (λ node. refl) refl v

-- Any events keep the names distinct and every node under its own name.
handle_all-IsMembership :
    (events : List Event) (nodes : Map Node)
    → IsMembership nodes
    → IsMembership (handle_all events nodes)
unfolding handle_all
handle_all-IsMembership [] nodes v = v
handle_all-IsMembership (e ∷ events) nodes v =
    handle_all-IsMembership events (handle e nodes) (handle-IsMembership e nodes v)
