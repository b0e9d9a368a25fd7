-- ===== src/Components/Theme.antt =====
-- ThemeProvider of dashboard/src/lib/theme.tsx: the theme, what localStorage has of it, and the theme
-- whose variables the document has.
use recif.Base.{◌≡◌, refl, Option, none, some, List, [], ◌∷◌, if◌then◌else◌, arith}
use recif.Text.{Text, codes, text_eq}

pub data Theme : Type 0 where
  dark light : Theme

unfoldable pub theme_text : Theme → Text
theme_text dark = codes "dark"
theme_text light = codes "light"

pub record ThemeProvider : Type 0 where
  pub theme : Theme
  pub stored : Option Text
  pub applied : Option Theme

-- The effect of the first render, which begins with the dark theme.
unfoldable pub mount_theme : ThemeProvider → ThemeProvider
mount_theme p = elim p.stored [
  | none ↦ record p { theme = dark; applied = some dark }
  | some s ↦
      if text_eq s (codes "light")
      then record p { theme = light; applied = some light }
      else record p { theme = dark; applied = some dark }
]

unfoldable pub set_theme : Theme → ThemeProvider → ThemeProvider
set_theme t p = record p { theme = t; stored = some (theme_text t); applied = some t }

unfoldable pub toggle_theme : ThemeProvider → ThemeProvider
toggle_theme p = set_theme (elim p.theme [ dark ↦ light | light ↦ dark ]) p

pub data ThemeAct : Type 0 where
  set : Theme → ThemeAct
  toggle : ThemeAct

unfoldable pub theme_act : ThemeAct → ThemeProvider → ThemeProvider
theme_act (set t) p = set_theme t p
theme_act toggle p = toggle_theme p

unfoldable pub theme_acts : List ThemeAct → ThemeProvider → ThemeProvider
theme_acts [] p = p
theme_acts (a ∷ as') p = theme_acts as' (theme_act a p)

-- What is shown is applied, and is what a reload would show.
pub record IsSettled (p : ThemeProvider) : Type 0 where
  pub applied : p.applied ≡ some p.theme
  pub again : (mount_theme p).theme ≡ p.theme

mount_theme-IsSettled : (p : ThemeProvider) → IsSettled (mount_theme p)
unfolding mount_theme
mount_theme-IsSettled p = ground arith

set_theme-IsSettled : (t : Theme) (p : ThemeProvider) → IsSettled (set_theme t p)
unfolding set_theme mount_theme theme_text text_eq
set_theme-IsSettled dark p = record { applied = refl; again = refl }
set_theme-IsSettled light p = record { applied = refl; again = refl }

theme_act-IsSettled : (a : ThemeAct) (p : ThemeProvider) → IsSettled (theme_act a p)
unfolding theme_act toggle_theme
theme_act-IsSettled (set t) p = set_theme-IsSettled t p
theme_act-IsSettled toggle p = set_theme-IsSettled _ p

-- However the theme is set and toggled once the page is mounted: the document has the variables of
-- the theme that is shown, and a reload shows it again.
pub theme_acts-IsSettled :
    (as' : List ThemeAct) (p : ThemeProvider) → IsSettled (theme_acts as' (mount_theme p))
unfolding theme_acts
theme_acts-IsSettled as' p = settled as' (mount_theme p) (mount_theme-IsSettled p)
  where
    settled : (as' : List ThemeAct) (p : ThemeProvider) → IsSettled p → IsSettled (theme_acts as' p)
    settled [] p h = h
    settled (a ∷ as') p h = settled as' (theme_act a p) (theme_act-IsSettled a p)
