-- ===== src/Tests/Catalog.antt =====
-- Ratings and their aggregates.
use backlogg.Prelude.{
  ℕ, true, false, List, [], ◌∷◌, none, some, ◌≡◌, ◌↔◌, refl, arith, find, any, update_where,
}
use backlogg.Db.Tables.{movie, same_type, insert_row}
use backlogg.Db.Session.{request}
use backlogg.Feed.{create_rating_event}
use backlogg.Ratings.Rounding.{round_half_even, round_half_up, average, sum}
use backlogg.Ratings.Aggregates.{
  author_active, is_visible, rates_item, contribution, visible_scores, is_item, add_id, group_ids,
  in_ids, add_to_group, group_score, aggregate_groups, group_of, update_type, update_types,
  recalculate_item_aggregates, recalculate_item_aggregates_batch,
}
use backlogg.Ratings.Repository.{get_item_by_slug, get_rating, write_rating, upsert_rating}
use backlogg.Ratings.Service.{RatingIn, rate_item, write_rating_event}
use backlogg.Ratings.Sound.{IsSound}
use backlogg.Ratings.Batch.{refreshed}
use backlogg.Ratings.Agreement.{is_listed, recalculate_batch_lem}
use backlogg.Ratings.Divergence.{IsTied, scores_of, single_batch_agree_iff}
use backlogg.Prelude.Counts.{count}
use backlogg.Feed.Announced.{HasFeed}
use backlogg.Api.Announced.{serve_all-HasFeed}
use backlogg.Api.{Member, Call, serve_all}
use backlogg.Api.Soundness.{serve_all-IsSound}
use backlogg.Tests.Sample.{ana, alien, start, tied, toy}

abbrev five_stars : RatingIn
five_stars = record { score = some 50; review_text = none }

rated_alien :
    (request (rate_item movie "alien-1979" five_stars ana) start).1.items
    ≡ record alien { rating_internal = some 500; rating_count_internal = 1 } ∷ []
unfolding rate_item get_item_by_slug find same_type upsert_rating get_rating write_rating
    recalculate_item_aggregates write_rating_event create_rating_event insert_row visible_scores
    contribution rates_item is_visible author_active update_where is_item average round_half_even
    sum
rated_alien = refl

single_tied :
    (recalculate_item_aggregates movie 7 tied).items
    ≡ record alien { rating_internal = some 112; rating_count_internal = 8 } ∷ []
unfolding recalculate_item_aggregates visible_scores contribution rates_item is_visible
    author_active find same_type update_where is_item average round_half_even sum
single_tied = refl

batch_tied :
    (recalculate_item_aggregates_batch ((movie, 7) ∷ []) tied).items
    ≡ record alien { rating_internal = some 113; rating_count_internal = 8 } ∷ []
unfolding recalculate_item_aggregates_batch update_types update_type group_ids add_id in_ids any
    aggregate_groups group_score group_of add_to_group is_visible author_active find same_type
    update_where average round_half_up sum
batch_tied = refl

start-IsSound : IsSound start
unfolding visible_scores any
start-IsSound = record {
  fresh = (record { rating = tt; count = refl }, tt);
  tables = record {
    rating_ids = tt;
    ratings_below = tt;
    authors_below = tt;
    users_below = omega arith;
  };
}

abbrev history : List (ℕ × Call)
history =
    (1, Call.member (some "ana") (Member.rate movie "alien-1979" five_stars))
    ∷ (2, Call.set_ban "ana" true)
    ∷ (3, Call.member (some "ana") (Member.unrate movie "alien-1979"))
    ∷ (4, Call.set_ban "ana" false)
    ∷ []

serve_all-IsSound_example : IsSound (serve_all toy history start)
serve_all-IsSound_example = serve_all-IsSound toy history start start-IsSound

start-HasFeed : HasFeed start
unfolding count
start-HasFeed = record {
  announced = λ k u. refl;
  keys = λ u t i. omega arith;
  event_ids = tt;
  events_below = tt;
}

serve_all-HasFeed_example : HasFeed (serve_all toy history start)
serve_all-HasFeed_example = serve_all-HasFeed toy history start start-IsSound start-HasFeed

alien_found : find (is_item movie 7) tied.items ≡ some alien
unfolding find is_item same_type
alien_found = refl

single_batch_agree_iff_example :
    (recalculate_item_aggregates_batch ((movie, 7) ∷ []) tied
      ≡ recalculate_item_aggregates movie 7 tied)
    ↔ (¬ IsTied (scores_of movie 7 tied))
single_batch_agree_iff_example = single_batch_agree_iff movie 7 tied alien_found

recalculate_batch_lem_example :
    recalculate_item_aggregates_batch ((movie, 7) ∷ []) tied ≡ record tied {
      items =
          update_where
            (is_listed ((movie, 7) ∷ []))
            (refreshed tied.users.rows tied.user_ratings.rows)
            tied.items;
    }
recalculate_batch_lem_example = recalculate_batch_lem ((movie, 7) ∷ []) tied
