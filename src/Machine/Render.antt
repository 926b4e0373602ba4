-- ===== src/Machine/Render.antt =====
-- The events of a command on the terminal of kernel/kernel.c.
use rink_os.Prelude.{arith, ◌≡◌, refl, List, [], ◌∷◌, ◌++◌}
use rink_os.Screen.{Screen, Out, vga_clear, kprint}
use rink_os.Screen.Bounds.{IsValid, kprint-IsValid}
use rink_os.Machine.{Event, shows, clears, sends}

-- `kprint`, `vga_clear` and `outb` in turn: the screen, and the port writes.
unfoldable pub render : Screen → List Event → Screen × List Out
render s [] = (s, [])
render s (shows text ∷ es) =
    let (s', out) = kprint s text in let (s'', rest) = render s' es in (s'', out ++ rest)
render s (clears ∷ es) = render (vga_clear s) es
render s (sends o ∷ es) = let (s', rest) = render s es in (s', o ∷ rest)

pub render-append :
    (es es' : List Event) (s : Screen) → (render s (es ++ es')).0 ≡ (render (render s es).0 es').0
unfolding render
render-append [] es' s = refl
render-append (shows text ∷ es) es' s = render-append es es' (kprint s text).0
render-append (clears ∷ es) es' s = render-append es es' (vga_clear s)
render-append (sends o ∷ es) es' s = render-append es es' s

vga_clear-IsValid : (s : Screen) → IsValid (vga_clear s)
unfolding vga_clear
vga_clear-IsValid s = record { row_in = omega arith; col_in = omega arith }

pub render-IsValid : (es : List Event) (s : Screen) → IsValid s → IsValid (render s es).0
unfolding render
render-IsValid [] s v = v
render-IsValid (shows text ∷ es) s v =
    render-IsValid es (kprint s text).0 (kprint-IsValid text s v).0
render-IsValid (clears ∷ es) s v = render-IsValid es (vga_clear s) (vga_clear-IsValid s)
render-IsValid (sends o ∷ es) s v = render-IsValid es s v
