-- ===== src/Cluster/Runtime/Refinement.antt =====
-- What a runtime promises to those who report health: a list of endpoints with their marks.
use dubbo_go_pixiu.Prelude.{
  ℕ, Bool, true, false, ◌≡◌, refl, Option, none, some, List, [], ◌∷◌, any, ap₂, ap, subst, ◌∙◌,
}
use dubbo_go_pixiu.Prelude.Text.{Text}
use dubbo_go_pixiu.Prelude.Dict.{is_some}
use dubbo_go_pixiu.Cluster.Endpoint.{Endpoint}
use dubbo_go_pixiu.Cluster.Snapshot.{
  EndpointSnapshot, with_endpoint_health, with_endpoint_address_health,
}
use dubbo_go_pixiu.Cluster.Snapshot.Index.{IsIndexed}
use dubbo_go_pixiu.Cluster.Snapshot.Marks.{
  view, view_after, mark_where, at_address, is_endpoint, with_endpoint_health-view,
  with_endpoint_address_health-view, with_endpoint_health-total, with_endpoint_address_health-total,
}
use dubbo_go_pixiu.Cluster.Runtime.Invariant.{IsRunning}
use dubbo_go_pixiu.Cluster.Runtime.{
  RuntimeCluster, publish, update_health, update_endpoint_health, update_endpoint_address_health,
  snapshot_for_runtime_replacement,
}

-- The endpoints that requests see, and whether reports are taken.
pub record Board : Type 0 where
  pub endpoints : List Endpoint
  pub accepting : Bool

-- A report on an address, a report on an endpoint, and the freeze before a replacement.
pub data Report : Type 0 where
  on_address : Text → Bool → Report
  on_endpoint : Text → Text → Bool → Report
  freeze : Report

-- A report that is taken marks the endpoints that pass the test.
abbrev pub post_if : Bool → (Endpoint → Bool) → Bool → Board → Board × Bool
post_if false p healthy b = (b, false)
post_if true p healthy b =
    (record b { endpoints = mark_where p healthy b.endpoints }, any p b.endpoints)

-- The board after a report, and the answer: was there an endpoint to mark?
abbrev pub post_report : Report → Board → Board × Bool
post_report (on_address address healthy) b = post_if b.accepting (at_address address) healthy b
post_report (on_endpoint id address healthy) b =
    post_if b.accepting (is_endpoint id address) healthy b
post_report freeze b = (record b { accepting = false }, true)

-- What the runtime does for a report, with the free place for clones.
unfoldable pub take_report : ℕ → Report → RuntimeCluster → RuntimeCluster × Bool
take_report heap (on_address address healthy) c =
    update_endpoint_address_health heap address healthy c
take_report heap (on_endpoint id address healthy) c =
    update_endpoint_health heap id address healthy c
take_report heap freeze c = ((snapshot_for_runtime_replacement c).0, true)

unfoldable pub take_reports : List (ℕ × Report) → RuntimeCluster → RuntimeCluster × List Bool
take_reports [] c = (c, [])
take_reports ((heap, r) ∷ rs) c =
    let (c', answer) = take_report heap r c in
    let (last, answers) = take_reports rs c' in (last, answer ∷ answers)

abbrev pub post_reports : List (ℕ × Report) → Board → Board × List Bool
post_reports [] b = (b, [])
post_reports ((_, r) ∷ rs) b =
    let (b', answer) = post_report r b in
    let (last, answers) = post_reports rs b' in (last, answer ∷ answers)

-- The snapshot of the runtime shows the board.
pub record Shows (c : RuntimeCluster) (b : Board) : Type 0 where
  pub snapshot : EndpointSnapshot
  pub current : c.endpoints ≡ some snapshot
  pub indexed : IsIndexed snapshot
  pub view_eq : view snapshot ≡ b.endpoints
  pub accepting_eq : c.accept_health_events ≡ b.accepting

-- The same answer, with the board that is shown.
abbrev Agrees : RuntimeCluster × Bool → Board × Bool → Type 0
Agrees left right = Shows left.0 right.0 × (left.1 ≡ right.1)

publish-Shows :
    (c : RuntimeCluster) (b : Board) (p : Endpoint → Bool) (healthy : Bool) (h : Shows c b)
    (o : Option EndpointSnapshot)
    → ((next : EndpointSnapshot) → o ≡ some next → IsIndexed next)
    → view_after h.snapshot o ≡ mark_where p healthy (view h.snapshot)
    → is_some o ≡ any p (view h.snapshot)
    → Shows (publish o c).0 (record b { endpoints = mark_where p healthy b.endpoints })
      × ((publish o c).1 ≡ any p b.endpoints)
publish-Shows c b p healthy h none made after answer = (
  record {
    snapshot = h.snapshot;
    current = h.current;
    indexed = h.indexed;
    view_eq = after ∙ ap (mark_where p healthy) h.view_eq;
    accepting_eq = h.accepting_eq;
  },
  answer ∙ ap (any p) h.view_eq,
)
publish-Shows c b p healthy h (some next) made after answer = (
  record {
    snapshot = next;
    current = refl;
    indexed = made next refl;
    view_eq = after ∙ ap (mark_where p healthy) h.view_eq;
    accepting_eq = h.accepting_eq;
  },
  answer ∙ ap (any p) h.view_eq,
)

update_health-Shows :
    (c : RuntimeCluster) (b : Board) (p : Endpoint → Bool) (healthy : Bool) (h : Shows c b)
    (attempt : EndpointSnapshot → Option EndpointSnapshot) (accepting : Bool)
    (current : Option EndpointSnapshot)
    → current ≡ some h.snapshot
    → ((next : EndpointSnapshot) → attempt h.snapshot ≡ some next → IsIndexed next)
    → (view_after h.snapshot (attempt h.snapshot) ≡ mark_where p healthy (view h.snapshot))
      × (is_some (attempt h.snapshot) ≡ any p (view h.snapshot))
    → Agrees (update_health accepting current attempt c) (post_if accepting p healthy b)
update_health-Shows c b p healthy h attempt false current g made total = (h, refl)
update_health-Shows c b p healthy h attempt true none g made total = cc
update_health-Shows c b p healthy h attempt true (some s) g made total =
    let same : s ≡ h.snapshot = cc in
    rw same (publish-Shows c b p healthy h (attempt h.snapshot) made total.0 total.1)

take_report-Shows :
    (heap : ℕ) (r : Report) (c : RuntimeCluster) (b : Board)
    → Shows c b
    → Agrees (take_report heap r c) (post_report r b)
unfolding take_report update_endpoint_health update_endpoint_address_health
    snapshot_for_runtime_replacement
take_report-Shows heap (on_address address healthy) c b h =
    subst
      (λ x.
        Agrees (update_endpoint_address_health heap address healthy c)
          (post_if x (at_address address) healthy b))
      h.accepting_eq
      (update_health-Shows c b (at_address address) healthy h
        (with_endpoint_address_health address healthy heap) c.accept_health_events c.endpoints
        h.current
        (λ next made.
          (with_endpoint_address_health-view address healthy heap h.snapshot next h.indexed made).0)
        (with_endpoint_address_health-total address healthy heap h.snapshot h.indexed))
take_report-Shows heap (on_endpoint id address healthy) c b h =
    subst
      (λ x.
        Agrees (update_endpoint_health heap id address healthy c)
          (post_if x (is_endpoint id address) healthy b))
      h.accepting_eq
      (update_health-Shows c b (is_endpoint id address) healthy h
        (with_endpoint_health id address healthy heap) c.accept_health_events c.endpoints h.current
        (λ next made.
          (with_endpoint_health-view id address healthy heap h.snapshot next h.indexed made).0)
        (with_endpoint_health-total id address healthy heap h.snapshot h.indexed))
take_report-Shows heap freeze c b h = (
  record {
    snapshot = h.snapshot;
    current = h.current;
    indexed = h.indexed;
    view_eq = h.view_eq;
    accepting_eq = refl;
  },
  refl,
)

-- A runtime implements a board: whatever reports come in whatever order, the endpoints that requests see
-- are those of the board, and so is each answer. A report marks exactly the endpoints at its address, or
-- those with its ID at its address, and answers whether there are any; after a freeze nothing is marked.
pub take_reports-Shows :
    (rs : List (ℕ × Report)) (c : RuntimeCluster) (b : Board)
    → Shows c b
    → Shows (take_reports rs c).0 (post_reports rs b).0
      × ((take_reports rs c).1 ≡ (post_reports rs b).1)
unfolding take_reports
take_reports-Shows [] c b h = (h, refl)
take_reports-Shows ((heap, r) ∷ rs) c b h =
    let (h', answer) = take_report-Shows heap r c b h in
    let (last, answers) = take_reports-Shows rs (take_report heap r c).0 (post_report r b).0 h' in
    (last, ap₂ (λ a l. a ∷ l) answer answers)

-- The board of a running runtime.
pub running-Shows :
    (c : RuntimeCluster) (r : IsRunning c)
    → Shows c (record { endpoints = view r.0; accepting = c.accept_health_events })
running-Shows c (s, current, indexed) = record {
  snapshot = s;
  current = current;
  indexed = indexed;
  view_eq = refl;
  accepting_eq = refl;
}
