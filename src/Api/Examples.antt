-- ===== src/Api/Examples.antt =====
-- Requests to a process with two units of two stations, and two sockets.
use defect_sense.Prelude.{
  ◌≡◌, refl, sym, ap, Option, some_inj, String, true, false, none, some, List, [], ◌∷◌, arith, All,
}
use defect_sense.Prelude.Sort.{keep, some_of}
use defect_sense.Prelude.Int.{ℤ}
use defect_sense.Dict.{lookup, insert, remove}
use defect_sense.Enums.{shop_floor_worker, qa, pass, escalate}
use defect_sense.Float.Fixed.{fixed}
use defect_sense.Store.{matches, summarise}
use defect_sense.Store.Memory
use defect_sense.Store.Memory.{InMemoryInspectionRepository, new_repository, stored, evict}
use defect_sense.Auth.{allows, config_of}
use defect_sense.Auth.Gates.{station_scope}
use defect_sense.Graph.{FusionVerdict}
use defect_sense.Graph.Examples
use defect_sense.Graph.Examples.{nominal_inputs, nominal_ends, nominal_passes, ramp, ramp_baseline}
use defect_sense.Api.{
  shown, InspectionState, InspectionView, Assignment, move_to_end, trimmed, cached, persist,
  cache_view, view_from_state, fastener_view, default_station_id,
}
use defect_sense.Api.Views.{
  VisiblePage, ok, resolve_view, gather, visible_views, list_inspections, get_inspection, metrics,
  metrics_window, detail, dashboard,
}
use defect_sense.Api.Writes.{publish, assign_defect, narrate_and_publish}
use defect_sense.Api.Coherent.{IsCoherent}
use defect_sense.Api.History.{served, served_all, served_all-IsCoherent}
use defect_sense.Api.Repository.{in_memory, IsNamed, in_memory-IsRepository}
use defect_sense.Api.Page.{store_page, plain_page}
use defect_sense.Api.Reads.{reads_agree}
use defect_sense.Api.Scope.{Entitled, listed, detailed, shows_only-Entitled}
use defect_sense.Api.Custody.{publish_reads_back, assign_defect_reads_back}
use defect_sense.Api.Feed.{Connection, Step, arrives, broadcasts, sends, scope_of, run}
use defect_sense.Api.Delivery.{IsAccounted, meant}
use defect_sense.Api.Live.{nothing_lost_silently}
use defect_sense.Api.Samples.{
  round, learnt, wheel, form, started, matrix, priya, ravi, shift, later, kept,
}

new-IsNamed : IsNamed form (new_repository 100)
unfolding lookup some_of Memory.get
new-IsNamed = record {
  sound = record { bounded = omega arith; distinct = tt; same = λ k. refl };
  own = λ k s e. absurd (ground arith);
}

no_entry {ℓ} : {A : Type ℓ} (a : A) → none ≡ some a → ⊥
no_entry a e = cc

started-IsCoherent : IsCoherent round (in_memory form) (IsNamed form) started
unfolding lookup
started-IsCoherent = record {
  views_bounded = omega arith;
  states_bounded = omega arith;
  recent_bounded = omega arith;
  views_unique = tt;
  states_unique = tt;
  sound = λ h e. rw (sym (some_inj e)) new-IsNamed;
  states_named = λ k qc e. absurd (no_entry qc e);
  views_named = λ k v e. absurd (no_entry v e);
  views_true = λ k v qc e s. absurd (no_entry v e);
}

later-IsCoherent : IsCoherent round (in_memory form) (IsNamed form) later
later-IsCoherent =
    served_all-IsCoherent round (in_memory form) (IsNamed form)
      (in_memory-IsRepository form (λ qc. refl) (λ qc. refl)) matrix shift started
      started-IsCoherent

served_all-IsCoherent_example :
    IsCoherent round
      (in_memory form)
      (IsNamed form)
      (served_all round (in_memory form) matrix shift started)
served_all-IsCoherent_example =
    served_all-IsCoherent round (in_memory form) (IsNamed form)
      (in_memory-IsRepository form (λ qc. refl) (λ qc. refl)) matrix shift started
      started-IsCoherent

shows_only-Entitled_example :
    All (Entitled round (in_memory form) matrix shop_floor_worker) (
      listed round
        (in_memory form)
        (list_inspections round (in_memory form) matrix shop_floor_worker 50 later).0)
    × All (Entitled round (in_memory form) matrix shop_floor_worker) (
        detailed round
          (in_memory form)
          (get_inspection round (in_memory form) matrix shop_floor_worker "insp-1" later).0)
shows_only-Entitled_example =
    shows_only-Entitled round (in_memory form) matrix shop_floor_worker 50 "insp-1" later

publish_reads_back_example :
    (get_inspection round
      (in_memory form)
      matrix
      qa
      "insp-3"
      (publish round (in_memory form) 9 (wheel "insp-3" "WA-02") later).1.1).0
    ≡ detail round
        (in_memory form)
        (station_scope matrix qa default_station_id)
        (some (publish round (in_memory form) 9 (wheel "insp-3" "WA-02") later).0)
unfolding allows config_of some_of
publish_reads_back_example =
    publish_reads_back round (in_memory form) matrix qa refl 9 (wheel "insp-3" "WA-02") later

-- The worker of the station reads the unit of that station, and not the other one.
other_station_hidden :
    (list_inspections round (in_memory form) matrix shop_floor_worker 50 later).0
    ≡ ok (record {
      views =
          record (view_from_state round learnt later.assignments (wheel "insp-1" "WA-01")) {
            narrative = none;
          }
          ∷ [];
      total = 1;
      scanned = 2;
      stored = 2;
      truncated = false;
    })
unfolding list_inspections get_inspection visible_views gather resolve_view station_scope allows
    config_of some_of served_all served publish persist cached cache_view move_to_end trimmed lookup
    insert remove in_memory Memory.save Memory.get Memory.list_page stored matches summarise keep
    narrate_and_publish assign_defect view_from_state fastener_view evict Memory.matched
other_station_hidden = refl

later-kept : later.storage ≡ some kept
unfolding list_inspections visible_views gather resolve_view station_scope allows config_of some_of
    served_all served publish persist cached cache_view move_to_end trimmed lookup insert remove
    in_memory Memory.save Memory.get Memory.list_page stored matches summarise keep
    narrate_and_publish assign_defect view_from_state fastener_view evict Memory.matched
later-kept = refl

reads_agree_example :
    let r = in_memory-IsRepository form (λ qc. refl) (λ qc. refl) in
    let scope = station_scope matrix shop_floor_worker default_station_id in
    ((page : VisiblePage ℤ) × ((list_inspections round
          (in_memory form)
          matrix
          shop_floor_worker
          50
          later).0
        ≡ ok page)
      × (plain_page round (in_memory form) (IsNamed form) r page
          ≡ store_page round (in_memory form) (IsNamed form) r 50 scope learnt kept))
    × ((metrics round (in_memory form) matrix shop_floor_worker later).0
        ≡ ok (
            dashboard round (in_memory form) (
              store_page round (in_memory form) (IsNamed form) r metrics_window scope learnt kept)))
unfolding list_inspections visible_views gather resolve_view station_scope allows config_of some_of
    served_all served publish persist cached cache_view move_to_end trimmed lookup insert remove
    in_memory Memory.save Memory.get Memory.list_page stored matches summarise keep
    narrate_and_publish assign_defect view_from_state fastener_view evict Memory.matched
reads_agree_example =
    reads_agree round (in_memory form) (IsNamed form) matrix shop_floor_worker kept later 50
      (in_memory-IsRepository form (λ qc. refl) (λ qc. refl)) later-IsCoherent later-kept refl
      ((wheel "insp-2" "WA-02", refl), ((wheel "insp-1" "WA-01", refl), tt))
      ((wheel "insp-2" "WA-02", refl), ((wheel "insp-1" "WA-01", refl), tt))

assign_defect_reads_back_example :
    let (reply, (effects, next)) =
      assign_defect round (in_memory form) matrix 11 priya (some ravi) "insp-2" later in
    (a : Assignment) × (view : InspectionView ℤ) × (reply ≡ ok a)
    × (a.assigned_to_username ≡ ravi.username)
    × ((get_inspection round (in_memory form) matrix qa "insp-2" next).0
        ≡ detail round (in_memory form) (station_scope matrix qa default_station_id) (some view))
    × (view.assigned ≡ some a)
    × (view.narrative ≡ none)
unfolding list_inspections visible_views gather resolve_view station_scope allows config_of some_of
    served_all served publish persist cached cache_view move_to_end trimmed lookup insert remove
    in_memory Memory.save Memory.get Memory.list_page stored matches summarise keep
    narrate_and_publish assign_defect view_from_state fastener_view evict Memory.matched
assign_defect_reads_back_example =
    assign_defect_reads_back round (in_memory form) matrix qa refl 11 priya ravi "insp-2"
      (wheel "insp-2" "WA-02") (wheel "insp-2" "WA-02") kept later refl refl later-kept refl refl

-- One socket of the shop floor and one without a token.
abbrev traffic : List (Step String)
traffic =
    broadcasts (some "WA-01") "first"
    ∷ arrives "b" (record { user = none; degraded = true })
    ∷ broadcasts (some "WA-02") "second"
    ∷ sends "a"
    ∷ broadcasts none "third"
    ∷ sends "b"
    ∷ []

nothing_lost_silently_example :
    (last : Connection String) × (lookup "a"
        (run matrix (arrives "a" (record { user = some ravi; degraded = false }) ∷ traffic) [])
      ≡ some last)
    × IsAccounted (meant (scope_of matrix (some ravi)) traffic) last
nothing_lost_silently_example =
    nothing_lost_silently matrix "a" (record { user = some ravi; degraded = false }) traffic []
      (refl, tt)

-- The unit of the other station is not among them.
meant-traffic : meant (scope_of matrix (some ravi)) traffic ≡ "first" ∷ "third" ∷ []
unfolding meant station_scope allows config_of some_of
meant-traffic = refl

-- The unit of a nominal run.
abbrev nominal_unit : InspectionState ℤ
nominal_unit = record (wheel "insp-4" "WA-01") {
  channels = Examples.end_of (Examples.run nominal_inputs);
}

nominal_shown : (publish round (in_memory form) 12 nominal_unit later).0.verdict ≡ pass
unfolding publish view_from_state
nominal_shown =
    ap (λ (o : Option (FusionVerdict ℤ)). shown o (λ f. f.verdict) escalate) nominal_passes
