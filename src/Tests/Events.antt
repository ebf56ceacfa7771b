-- ===== src/Tests/Events.antt =====
-- The theorems on events, in a small world.

use time_tracker.Common.{
  ◌%◌, ◌==◌, ◌&&◌, is_true, unwrap_or, if◌then◌else◌, ◌+◌, ◌<◌, ◌≡◌, true, false, some, map, Has,
  ◌⊎◌,
}
use time_tracker.Common.Word.{rank, i32_mod}
use time_tracker.Entities.{AppModel, TimelineModel}
use time_tracker.Store.Memory.{memory, memory-Lawful, memory-Reliable}
use time_tracker.Events.{handle_timeline, handle_duration, handle_launches}
use time_tracker.Events.Checkpoints.{handle_duration_lem, handle_launches_lem}
use time_tracker.Events.Ticks.{TicksTimeline, handle_timeline_lem}
use time_tracker.Requests.Reporting.{}
use time_tracker.Events.{by_name}
use time_tracker.Messages.{}
use time_tracker.Requests.Apps.{}
use time_tracker.Requests.Listing.{}
use time_tracker.Rpc.Agreement.{}
use time_tracker.Tests.{two_checkpoints}
use time_tracker.Tests.Checkpoints.{two_checkpoints-Keyed}
use time_tracker.Tests.Worlds.{raw, raw-RoundTrips}

no_entries : (r : TimelineModel) → Has r two_checkpoints.timeline → rank r.id + 1 < i32_mod
no_entries r m = absurd m

handle_timeline_lem_example :
    (((a : AppModel) → Has a two_checkpoints.apps → by_name "quake" a ≡ false)
      × ((handle_timeline memory raw true "quake" 19000 two_checkpoints).0 ≡ two_checkpoints))
    ⊎ ((a : AppModel) × Has a two_checkpoints.apps
        × (by_name "quake" a ≡ true)
        × TicksTimeline memory raw memory-Lawful memory-Reliable raw-RoundTrips a 19000
            two_checkpoints
            (handle_timeline memory raw true "quake" 19000 two_checkpoints).0)
handle_timeline_lem_example =
    handle_timeline_lem memory raw memory-Lawful memory-Reliable raw-RoundTrips true "quake" 19000
      two_checkpoints no_entries

handle_duration_lem_example :
    (((a : AppModel) → Has a two_checkpoints.apps → by_name "quake" a ≡ false)
      × ((handle_duration memory raw true "quake" 103 two_checkpoints).0 ≡ two_checkpoints))
    ⊎ ((a : AppModel) × Has a two_checkpoints.apps
        × (by_name "quake" a ≡ true)
        × ((handle_duration memory raw true "quake" 103 two_checkpoints).0
            ≡ record two_checkpoints {
              apps =
                  map
                    (λ x.
                      if x.id == a.id
                      then record x { duration = some ((unwrap_or a.duration 0 + 1) % i32_mod) }
                      else x)
                    two_checkpoints.apps;
              checkpoints =
                  map
                    (λ c.
                      if (c.app_id == a.id) && is_true c.is_active
                      then record c {
                        duration = some ((unwrap_or c.duration 0 + 1) % i32_mod);
                        last_updated = some 103;
                      }
                      else c)
                    two_checkpoints.checkpoints;
            }))
handle_duration_lem_example =
    handle_duration_lem memory raw memory-Lawful memory-Reliable raw-RoundTrips true "quake" 103
      two_checkpoints two_checkpoints-Keyed

handle_launches_lem_example :
    (((a : AppModel) → Has a two_checkpoints.apps → by_name "quake" a ≡ false)
      × ((handle_launches memory raw true "quake" 103 two_checkpoints).0 ≡ two_checkpoints))
    ⊎ ((a : AppModel) × Has a two_checkpoints.apps
        × (by_name "quake" a ≡ true)
        × ((handle_launches memory raw true "quake" 103 two_checkpoints).0
            ≡ record two_checkpoints {
              apps =
                  map
                    (λ x.
                      if x.id == a.id
                      then record x { launches = some ((unwrap_or a.launches 0 + 1) % i32_mod) }
                      else x)
                    two_checkpoints.apps;
              checkpoints =
                  map
                    (λ c.
                      if (c.app_id == a.id) && is_true c.is_active
                      then record c {
                        sessions_count = some ((unwrap_or c.sessions_count 0 + 1) % i32_mod);
                        last_updated = some 103;
                      }
                      else c)
                    two_checkpoints.checkpoints;
            }))
handle_launches_lem_example =
    handle_launches_lem memory raw memory-Lawful memory-Reliable raw-RoundTrips true "quake" 103
      two_checkpoints two_checkpoints-Keyed
