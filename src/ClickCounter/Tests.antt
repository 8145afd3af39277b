-- ===== src/ClickCounter/Tests.antt =====
-- The counter of lab3/8/my_gtk.c.
use open_source_project.Prelude.{◌≡◌, refl, some, codes}
use open_source_project.Prelude.Decimal.{print_nat}
use open_source_project.ClickCounter.{on_button_clicked, start_counter, clicks}

three_clicks :
    clicks 3 start_counter ≡ some (record { count = 3; label = codes "Button clicked: 3 times" })
unfolding clicks on_button_clicked print_nat
three_clicks = refl
