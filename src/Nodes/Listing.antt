-- ===== src/Nodes/Listing.antt =====
-- getFilteredNodes, getNodes and getNodeCount of NodeService, for the list of all nodes.
use mathlib.Core.List.{Perm, Mem, reverse, reverse_perm}
use mathlib.Core.List.Perm
use mx_api_service.Base.{
  ℕ, ◌≡◌, sym, subst, Bool, true, false, String, Option, none, some, List, ◌++◌, All, All-map,
  All-select, All-reverse, take-plus, drop-plus, IsSorted-reverse, ◌+◌, select, length, take, drop,
  Bool-cases, mem-select, inl, inr, sort_by, sort_by-perm, sort_by-IsSorted, All-sort_by, IsSorted,
  if◌then◌else◌,
}
use mx_api_service.CacheInfo.{QueryPagination}
use mx_api_service.Nodes.{Node, NodeFilter, NodeSort, SortOrder, desc}
use mx_api_service.Nodes.Filter.{node_matches}
use mx_api_service.Nodes.Criteria.{Fits, node_matches_iff}
use mx_api_service.Nodes.Order.{node_gt, node_gt-IsOrderOn, HasValue}

abbrev pub is_desc : Option SortOrder → Bool
is_desc (some desc) = true
is_desc _ = false

module _ (lower : String → String) (to_number : String → ℕ) where
  unfoldable pub arrange : Option NodeSort → Option SortOrder → List Node → List Node
  unfolding node_gt sort_by
  arrange none order nodes = nodes
  arrange (some s) order nodes =
      let sorted = sort_by (node_gt lower to_number s) nodes in
      if is_desc order then reverse sorted else sorted

  unfoldable pub get_filtered_nodes : NodeFilter → List Node → List Node
  unfolding node_matches arrange
  get_filtered_nodes q nodes = arrange q.sort q.order (select (node_matches lower q) nodes)

  unfoldable pub get_node_count : NodeFilter → List Node → ℕ
  unfolding get_filtered_nodes
  get_node_count q nodes = length (get_filtered_nodes q nodes)

  unfoldable pub get_nodes : QueryPagination → NodeFilter → List Node → List Node
  unfolding get_filtered_nodes
  get_nodes page q nodes = take page.size (drop page.start (get_filtered_nodes q nodes))

  arrange-perm :
      (s : Option NodeSort) (o : Option SortOrder) (ns : List Node) → Perm (arrange s o ns) ns
  unfolding arrange
  arrange-perm none o ns = Perm.rfl
  arrange-perm (some s) o ns =
      let sorted = sort_by-perm (node_gt lower to_number s) ns in
      elim (Bool-cases (is_desc o)) [
        | inl d ↦ rw (d) (Perm.trans (reverse_perm _) sorted)
        | inr d ↦ rw (d) sorted
      ]

  All-arrange :
      (P : Node → Type 0) (s : Option NodeSort) (o : Option SortOrder) (ns : List Node)
      → All P ns
      → All P (arrange s o ns)
  unfolding arrange
  All-arrange P none o ns h = h
  All-arrange P (some s) o ns h =
      let sorted = All-sort_by (node_gt lower to_number s) P ns h in
      elim (Bool-cases (is_desc o)) [
        | inl d ↦ rw (d) (All-reverse P _ sorted)
        | inr d ↦ rw (d) sorted
      ]

  -- What the order asked for makes of the comparator.
  abbrev pub ordered_gt : NodeSort → Option SortOrder → Node → Node → Bool
  ordered_gt s o =
      if is_desc o then (λ a b. node_gt lower to_number s b a) else node_gt lower to_number s

  arrange-IsSorted :
      (s : NodeSort) (o : Option SortOrder) (ns : List Node)
      → All (HasValue lower to_number s) ns
      → IsSorted (ordered_gt s o) (arrange (some s) o ns)
  unfolding arrange
  arrange-IsSorted s o ns there =
      let gt = node_gt lower to_number s in
      let sorted =
        sort_by-IsSorted gt (HasValue lower to_number s) (node_gt-IsOrderOn lower to_number s) ns
          there in
      elim (Bool-cases (is_desc o)) [
        | inl d ↦ rw (ordered_gt, d) (IsSorted-reverse gt (sort_by gt ns) sorted)
        | inr d ↦ rw (ordered_gt, d) sorted
      ]

  module _ (q : NodeFilter) (nodes : List Node) where
    -- What the list of a query is.
    pub record IsListing (result : List Node) : Type 0 where
      -- the nodes that the query asks for, each as often as it is there
      pub fits : All (Fits lower q) result
      pub all_there : (n : Node) → Mem n nodes → Fits lower q n → Mem n result
      pub perm : Perm result (select (node_matches lower q) nodes)
      -- in the order asked for, if all the nodes that are listed have the field
      pub sorted :
          (s : NodeSort)
          → q.sort ≡ some s
          → All (HasValue lower to_number s) (select (node_matches lower q) nodes)
          → IsSorted (ordered_gt s q.order) result

    get_filtered_nodes-perm :
        Perm (get_filtered_nodes q nodes) (select (node_matches lower q) nodes)
    unfolding get_filtered_nodes
    get_filtered_nodes-perm = arrange-perm q.sort q.order _

    Fits-select : (ns : List Node) → All (Fits lower q) (select (node_matches lower q) ns)
    Fits-select ns =
        All-map (λ n. (node_matches_iff lower q n).0) _ (All-select (node_matches lower q) ns)

    get_filtered_nodes-Fits : All (Fits lower q) (get_filtered_nodes q nodes)
    unfolding get_filtered_nodes
    get_filtered_nodes-Fits = All-arrange (Fits lower q) q.sort q.order _ (Fits-select nodes)

    -- The list of nodes for a query has exactly the nodes that fit the query, each as often as it is
    -- there, and is sorted in the order asked for, if each node that passes the test has the field
    -- that is sorted by.
    pub get_filtered_nodes-IsListing : IsListing (get_filtered_nodes q nodes)
    unfolding get_filtered_nodes
    get_filtered_nodes-IsListing = record {
      fits = get_filtered_nodes-Fits;
      all_there = λ n m f.
          (Perm.mem_iff get_filtered_nodes-perm).1
            (mem-select (node_matches lower q) n nodes m ((node_matches_iff lower q n).1 f));
      perm = get_filtered_nodes-perm;
      sorted = λ s e there.
          subst
            (λ o.
              IsSorted (ordered_gt s q.order)
                (arrange o q.order (select (node_matches lower q) nodes)))
            (sym e) (arrange-IsSorted s q.order (select (node_matches lower q) nodes) there);
    }

    -- A page and the page that starts where it ends are together the page of both sizes.
    pub get_nodes-append :
        (start a b : ℕ)
        → get_nodes (record { start = start; size = a }) q nodes
            ++ get_nodes (record { start = start + a; size = b }) q nodes
          ≡ get_nodes (record { start = start; size = a + b }) q nodes
    unfolding get_nodes
    get_nodes-append start a b =
        rw (drop-plus start a (get_filtered_nodes q nodes))
          (take-plus a b (drop start (get_filtered_nodes q nodes)))
