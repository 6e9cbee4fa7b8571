-- ===== src/ReconcileJob/Inventory/Render.antt =====
-- `renderInventoryTemplate`: the text that the template yields.
pub mod Ports
use Prim.Native.Nat.{zero, suc}
use ansible_operator.Base.{ℕ, String, ◌<>◌, List, [], ◌∷◌, nonempty, ◌==◌, if◌then◌else◌}
use ansible_operator.Base.Texts.{decimal}
use ansible_operator.ReconcileJob.Inventory.Content.{
  InventoryContentGroup, InventoryContentHost, InventoryContent,
}

-- `{{- if .Field }} … {{- end }}` on a string and on a number
abbrev if_text : String → String → String
if_text field line = if field == "" then "" else line <> field

abbrev if_number : ℕ → String → String
if_number zero line = ""
if_number (suc n) line = line <> decimal (suc n)

unfoldable pub render_host : InventoryContentHost → String
unfolding decimal
render_host h =
    "\n    "
    <> (h.inventory_name
        <> (":"
            <> (if_text h.hostname "\n      ansible_host: "
                <> (if_number h.port "\n      ansible_port: "
                    <> (if_text h.username "\n      ansible_user: "
                        <> ((if h.become then "\n      ansible_become: true" else "")
                            <> ("\n      ansible_ssh_private_key_file: /ssh/keys/"
                                <> h.kubernetes_name)))))))

unfoldable pub render_hosts : List InventoryContentHost → String
unfolding render_host
render_hosts [] = ""
render_hosts (h ∷ hs) = render_host h <> render_hosts hs

unfoldable pub render_members : List String → String
render_members [] = ""
render_members (m ∷ ms) = "\n    " <> (m <> (":" <> render_members ms))

-- `{{- if .Subgroups }} … {{- end }}` and the same for `.Hosts`
abbrev section : String → List String → String
section heading members = if nonempty members then heading <> render_members members else ""

unfoldable pub render_group : InventoryContentGroup → String
unfolding render_members
render_group g =
    g.name
    <> (":" <> (section "\n  children:" g.subgroups <> (section "\n  hosts:" g.hosts <> "\n")))

unfoldable pub render_groups : List InventoryContentGroup → String
unfolding render_group
render_groups [] = ""
render_groups (g ∷ gs) = render_group g <> render_groups gs

unfoldable pub render_inventory_template : InventoryContent → String
unfolding render_hosts render_groups
render_inventory_template c =
    "all:\n  hosts:" <> (render_hosts c.hosts <> ("\n" <> render_groups c.groups))
