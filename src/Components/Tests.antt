-- ===== src/Components/Tests.antt =====
-- Runs of the small components.
use recif.Base.{◌≡◌, refl, true, none, some, [], ◌∷◌, arith}
use recif.Text.{Text, codes, includes, starts_with}
use recif.Components.Diagram.{
  Position, top_bottom, auto_layout, ceil_sqrt, ceil_sqrt_from, places_from, place,
  auto_layout-apart,
}
use recif.Components.Palette.{
  Command, Palette, enter, arrow_down, key, go_to, command_at, filtered, commands, handle_key_down,
  index_down, on_palette, on_palette_events,
}
use recif.Components.Palette.Range.{enter-visited}
use recif.Components.Theme.{dark, ThemeProvider}

-- The places of the first node and of the fifth, of five nodes.
abbrev first_place : Position
first_place = record { x = 0; y = 0 }

abbrev fifth_place : Position
fifth_place = record { x = 200; y = 140 }

auto_layout-apart_example : ¬ (first_place ≡ fifth_place)
unfolding auto_layout ceil_sqrt ceil_sqrt_from places_from place
auto_layout-apart_example =
    auto_layout-apart top_bottom 5 0 4 first_place fifth_place refl refl (omega arith)

abbrev as_typed : Text → Text
as_typed t = t

abbrev opened : Palette
opened = record { is_open = true; query = []; selected = some 0; visited = [] }

enter-visited_example :
    (c : Command) × (command_at
        (on_palette_events as_typed (key arrow_down ∷ []) opened).selected
        (filtered as_typed (on_palette_events as_typed (key arrow_down ∷ []) opened).query)
      ≡ some c)
    × (on_palette as_typed (key enter) (on_palette_events as_typed (key arrow_down ∷ []) opened)
        ≡ go_to c (on_palette_events as_typed (key arrow_down ∷ []) opened))
unfolding on_palette_events on_palette handle_key_down filtered commands index_down includes
    starts_with
enter-visited_example =
    enter-visited as_typed (key arrow_down ∷ []) opened (omega arith) refl
      (λ none_shown. absurd (cc none_shown))

abbrev stored_light : ThemeProvider
stored_light = record { theme = dark; stored = some (codes "light"); applied = none }
