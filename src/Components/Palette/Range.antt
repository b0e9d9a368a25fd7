-- ===== src/Components/Palette/Range.antt =====
-- The result that is chosen in the command palette is one of those shown.
use recif.Base.{
  ℕ, zero, suc, ◌<◌, ◌≡◌, ◌≢◌, refl, Bool, true, false, Option, none, some, List, [], ◌∷◌, length,
  get_elem?, if◌then◌else◌, arith,
}
use recif.Text.{Text}
use recif.Components.Palette.{
  Command, Palette, toggle, escape, arrow_down, arrow_up, enter, PaletteEvent, key, type_query,
  pick, click_beside, go_to, command_at, index_down, index_up, filtered, handle_key_down,
  on_palette, on_palette_events,
}

-- The index is that of a result, unless there is none.
abbrev pub IsShown : List Command → Option ℕ → Type 0
IsShown [] o = Unit
IsShown (c ∷ cs) none = ⊥
IsShown (c ∷ cs) (some i) = i < length (c ∷ cs)

first-IsShown : (cs : List Command) → IsShown cs (some 0)
first-IsShown [] = tt
first-IsShown (c ∷ cs) = omega arith

index_down-IsShown :
    (cs : List Command) (o : Option ℕ) → IsShown cs o → IsShown cs (index_down (length cs) o)
unfolding index_down
index_down-IsShown [] o h = tt
index_down-IsShown (c ∷ cs) none h = absurd h
index_down-IsShown (c ∷ cs) (some i) h = ground arith

index_up-IsShown : (cs : List Command) (o : Option ℕ) → IsShown cs o → IsShown cs (index_up o)
unfolding index_up
index_up-IsShown [] o h = tt
index_up-IsShown (c ∷ cs) none h = absurd h
index_up-IsShown (c ∷ cs) (some i) h = omega (arith, h)

-- A result that is shown is found.
command_at-IsShown :
    (cs : List Command) (o : Option ℕ)
    → IsShown cs o
    → cs ≢ []
    → (c : Command) × (command_at o cs ≡ some c)
unfolding command_at
command_at-IsShown [] o h k = absurd (k refl)
command_at-IsShown (c ∷ cs) none h k = absurd h
command_at-IsShown (c ∷ cs) (some i) h k = found (c ∷ cs) i h
  where
    found : (cs : List Command) (i : ℕ) → i < length cs → (c : Command) × (get_elem? cs i ≡ some c)
    found [] i h = absurd (omega (arith, h))
    found (c ∷ cs) zero h = (c, refl)
    found (c ∷ cs) (suc i) h = found cs i (omega (arith, h))

module _ (lower : Text → Text) where
  abbrev pub InRange : Palette → Type 0
  InRange p = IsShown (filtered lower p.query) p.selected

  if_then_else-InRange :
      (b : Bool) (p q : Palette) → InRange p → InRange q → InRange (if b then p else q)
  if_then_else-InRange true p q h k = h
  if_then_else-InRange false p q h k = k

  enter-InRange :
      (o : Option Command) (p : Palette)
      → InRange p
      → InRange (elim o as (λ _. Palette) [ none ↦ p | some c ↦ go_to c p ])
  unfolding go_to
  enter-InRange none p h = h
  enter-InRange (some c) p h = h

  on_palette-InRange : (e : PaletteEvent) (p : Palette) → InRange p → InRange (on_palette lower e p)
  unfolding on_palette handle_key_down go_to
  on_palette-InRange (key toggle) p h = first-IsShown (filtered lower [])
  on_palette-InRange (key escape) p h = if_then_else-InRange p.is_open _ p h h
  on_palette-InRange (key arrow_down) p h =
      if_then_else-InRange p.is_open _ p (index_down-IsShown (filtered lower p.query) p.selected h)
        h
  on_palette-InRange (key arrow_up) p h =
      if_then_else-InRange p.is_open _ p (index_up-IsShown (filtered lower p.query) p.selected h) h
  on_palette-InRange (key enter) p h =
      if_then_else-InRange p.is_open _ p
        (enter-InRange (command_at p.selected (filtered lower p.query)) p h) h
  on_palette-InRange (type_query q) p h =
      if_then_else-InRange p.is_open _ p (first-IsShown (filtered lower q)) h
  on_palette-InRange (pick c) p h = if_then_else-InRange p.is_open _ p h h
  on_palette-InRange click_beside p h = if_then_else-InRange p.is_open _ p h h

  -- Whatever is pressed, typed and clicked: the chosen index is that of a result that is shown, unless
  -- there is none.
  pub on_palette_events-InRange :
      (es : List PaletteEvent) (p : Palette) → InRange p → InRange (on_palette_events lower es p)
  unfolding on_palette_events
  on_palette_events-InRange [] p h = h
  on_palette_events-InRange (e ∷ es) p h =
      on_palette_events-InRange es (on_palette lower e p) (on_palette-InRange e p h)

  -- If the palette is open and shows a result after whatever was pressed, typed and clicked, Enter goes
  -- to one of the results shown and closes it.
  pub enter-visited :
      (es : List PaletteEvent) (p : Palette)
      → InRange p
      → (on_palette_events lower es p).is_open ≡ true
      → filtered lower (on_palette_events lower es p).query ≢ []
      → (c : Command) × (command_at
            (on_palette_events lower es p).selected
            (filtered lower (on_palette_events lower es p).query)
          ≡ some c)
        × (on_palette lower (key enter) (on_palette_events lower es p)
            ≡ go_to c (on_palette_events lower es p))
  unfolding on_palette handle_key_down
  enter-visited es p h shown some_results =
      let q = on_palette_events lower es p in
      let (c, e) =
        command_at-IsShown (filtered lower q.query) q.selected (on_palette_events-InRange es p h)
          some_results in
      (c, e, ground (arith, shown, e))
