-- ===== src/Wetland/Tenant/Update.antt =====
-- The statement of a partial update.
use capyclaw.Prelude.{sym, String, some, [], ◌∷◌, ◌++◌}
use capyclaw.Sql.{Arg, start}
use capyclaw.Sql.Numbered.{Bound, numbered, add_fields-Bound, add_fields-last}
use capyclaw.Wetland.Tenant.{TenantDb, TenantUpdate, update_fields, update_statement}

-- The statement of an update sets the fields that are given and no other, in their order, and has one
-- condition, on the identifier: its text is the clauses with the numbers of their placeholders, its
-- arguments are as many, and each placeholder stands for the value of its own clause.
pub update_statement-Bound :
    {W : Type 0} (db : TenantDb W) (id : String) (u : TenantUpdate)
    → Bound db.number_text "UPDATE tenants SET updated_at = NOW()"
        (numbered 1 (update_fields u ++ (" WHERE id = $", some (Arg.uuid id)) ∷ []))
        (update_statement db id u)
unfolding update_statement
update_statement-Bound db id u =
    rw
      (sym (
        add_fields-last db.number_text (update_fields u) " WHERE id = $" (Arg.uuid id)
          (start "UPDATE tenants SET updated_at = NOW()")))
      (add_fields-Bound db.number_text "UPDATE tenants SET updated_at = NOW()" _)
