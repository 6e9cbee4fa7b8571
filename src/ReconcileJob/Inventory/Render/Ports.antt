-- ===== src/ReconcileJob/Inventory/Render/Ports.antt =====
-- The port of a host in the text of the inventory.
use Prim.Native.Nat.{zero, suc}
use Prim.Native.String.{count}
use text.Mathlib.TextLemmas.{append_cancel_left, append_cancel_right, length-append}
use ansible_operator.Base.{ℕ, ◌≡◌, ◌≢◌, refl, sym, ap, ◌∙◌, arith}
use ansible_operator.Base.Texts.{decimal}
use ansible_operator.Base.Texts.Decimal.{number_of, number_of-decimal}
use ansible_operator.ReconcileJob.Inventory.Content.{InventoryContentHost}
use ansible_operator.ReconcileJob.Inventory.Render.{if_text, if_number, render_host}

decimal_inj : (m n : ℕ) → decimal m ≡ decimal n → m ≡ n
decimal_inj m n e = sym (number_of-decimal m) ∙ ap number_of e ∙ number_of-decimal n

-- The line of the port, which is left out for 0.
if_number_inj :
    (p q : ℕ) → if_number p "\n      ansible_port: " ≡ if_number q "\n      ansible_port: " → p ≡ q
if_number_inj zero zero e = refl
if_number_inj zero (suc q) e =
    omega (arith, ap count e, length-append "\n      ansible_port: " (decimal (suc q)))
if_number_inj (suc p) zero e =
    omega (arith, ap count e, length-append "\n      ansible_port: " (decimal (suc p)))
if_number_inj (suc p) (suc q) e =
    decimal_inj (suc p) (suc q) (append_cancel_left "\n      ansible_port: " _ _ e)

-- Two entries of the inventory that differ in the port alone have different texts, also where the
-- port of one is 0 and left out.
pub render_host-port :
    (h : InventoryContentHost) (p q : ℕ)
    → p ≢ q
    → render_host (record h { port = p }) ≢ render_host (record h { port = q })
unfolding render_host
render_host-port h p q ne e = ne (
    if_number_inj p q (
      append_cancel_right _ _ _ (
        append_cancel_left (if_text h.hostname "\n      ansible_host: ") _ _ (
          append_cancel_left ":" _ _
            (append_cancel_left h.inventory_name _ _ (append_cancel_left "\n    " _ _ e))))))
