-- ===== src/Chat/Compare/Tests.antt =====
-- A run of the compare mode: one server answers, the other is not reached.
use recif.Base.{◌≡◌, refl, true, false, none, some, [], ◌∷◌}
use recif.Text.{codes, trim, trim_start, trim_end, cons_end, is_space}
use recif.Json.{nonempty}
use recif.Chat.Send.{Exchange, unreachable, answered, error, finished}
use recif.Chat.Compare.{stable, canary, Column, Compare, send_compare, stream_variant}
use recif.Chat.Compare.Settled.{Settled, stream_variant-Settled}

abbrev empty_column : Column
empty_column = record { messages = []; sending = false; latency = none }

abbrev compare : Compare
compare = record { input = codes "hi"; stable_column = empty_column; canary_column = empty_column }

abbrev answer : Exchange
answer = answered 200 (codes "data: ok\n" ∷ []) finished

abbrev no_answer : Exchange
no_answer = unreachable (error (codes "Failed to fetch"))

compare_full : nonempty (trim compare.input) ≡ true
unfolding trim trim_start trim_end cons_end is_space
compare_full = refl

stream_variant-Settled_example :
    (stream_variant some stable 7 answer
        (stream_variant some canary 9 no_answer (send_compare true compare).0)
      ≡ stream_variant some canary 9 no_answer
          (stream_variant some stable 7 answer (send_compare true compare).0))
    × Settled
        (trim (codes "hi"))
        empty_column
        (stream_variant some stable 7 answer
          (stream_variant some canary 9 no_answer (send_compare true compare).0)).stable_column
    × Settled
        (trim (codes "hi"))
        empty_column
        (stream_variant some stable 7 answer
          (stream_variant some canary 9 no_answer (send_compare true compare).0)).canary_column
stream_variant-Settled_example =
    stream_variant-Settled some 7 9 answer no_answer compare compare_full refl
