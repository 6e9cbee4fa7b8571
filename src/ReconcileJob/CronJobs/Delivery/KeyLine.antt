-- ===== src/ReconcileJob/CronJobs/Delivery/KeyLine.antt =====
-- The path of the private key in the text of an inventory entry.
use text.Mathlib.TextLemmas.{append_assoc, nil-append}
use ansible_operator.Base.{String, ◌<>◌, ◌≡◌, sym, ap, ◌∙◌}
use ansible_operator.ReconcileJob.Inventory.Content.{InventoryContentHost}
use ansible_operator.ReconcileJob.Inventory.Render.{render_host}

-- `text` ends in `end`.
abbrev pub EndsIn : String → String → Type 0
EndsIn end text = (start : String) × (text ≡ start <> end)

EndsIn-append : (end a text : String) → EndsIn end text → EndsIn end (a <> text)
EndsIn-append end a text (start, e) =
    (a <> start, ap (λ t. a <> t) e ∙ sym (append_assoc a start end))

-- the last line of an inventory entry, with the path of the private key
abbrev pub key_line : String → String
key_line path = "\n      ansible_ssh_private_key_file: " <> path

pub render_host-EndsIn :
    (c : InventoryContentHost)
    → EndsIn (key_line ("/ssh/keys/" <> c.kubernetes_name)) (render_host c)
unfolding render_host
render_host-EndsIn c =
    let last : EndsIn (key_line ("/ssh/keys/" <> c.kubernetes_name))
        ("\n      ansible_ssh_private_key_file: /ssh/keys/" <> c.kubernetes_name) =
      (
        "",
        append_assoc "\n      ansible_ssh_private_key_file: " "/ssh/keys/" c.kubernetes_name
            ∙ sym (nil-append _),
      ) in
    let on = EndsIn-append (key_line ("/ssh/keys/" <> c.kubernetes_name)) in
    on _ _ (on _ _ (on _ _ (on _ _ (on _ _ (on _ _ (on _ _ last))))))
