-- ===== src/Schema/Accounts.antt =====
-- accounts/migrations/0001_initial.py. The help texts are as Django wrote them into the file.
use doorito.Base.{[], ◌∷◌, true, false}
use doorito.Schema.Fields.{
  time_now, truth_value, date_time, big_auto, boolean, char, email, many_to_many, field,
}
use doorito.Schema.Migrator.{Operation, Migration, create_model}

abbrev pub create_user_table : Operation
create_user_table =
    create_model "User"
      (("id", record (field big_auto) { primary_key = true; verbose_name = "ID" })
        ∷ ("password", record (field (char 128)) { verbose_name = "password" })
        ∷ (
          "last_login",
          record (field (date_time false false)) {
            blank = true;
            null = true;
            verbose_name = "last login";
          },
        )
        ∷ (
          "is_superuser",
          record (field boolean) {
            default = truth_value false;
            help_text =
                "Designates that this user has all permissions without explicitly assigning them.";
            verbose_name = "superuser status";
          },
        )
        ∷ (
          "username",
          record (field (char 150)) {
            help_text = "Required. 150 characters or fewer. Letters, digits and @/./+/-/_ only.";
            unique = true;
            verbose_name = "username";
          },
        )
        ∷ ("first_name", record (field (char 150)) { blank = true; verbose_name = "first name" })
        ∷ ("last_name", record (field (char 150)) { blank = true; verbose_name = "last name" })
        ∷ ("email", record (field (email 254)) { blank = true; verbose_name = "email address" })
        ∷ (
          "is_staff",
          record (field boolean) {
            default = truth_value false;
            help_text = "Designates whether the user can log into this admin site.";
            verbose_name = "staff status";
          },
        )
        ∷ (
          "is_active",
          record (field boolean) {
            default = truth_value true;
            help_text =
                "Designates whether this user should be treated as active. Unselect this instead of deleting accounts.";
            verbose_name = "active";
          },
        )
        ∷ (
          "date_joined",
          record (field (date_time false false)) {
            default = time_now;
            verbose_name = "date joined";
          },
        )
        ∷ (
          "groups",
          record (field (many_to_many "auth.group" "user_set" "user")) {
            blank = true;
            help_text =
                "The groups this user belongs to. A user will get all permissions granted to each of their groups.";
            verbose_name = "groups";
          },
        )
        ∷ (
          "user_permissions",
          record (field (many_to_many "auth.permission" "user_set" "user")) {
            blank = true;
            help_text = "Specific permissions for this user.";
            verbose_name = "user permissions";
          },
        )
        ∷ [])
      (record {
        db_table = "user";
        verbose_name = "user";
        verbose_name_plural = "users";
        ordering = [];
        indexes = [];
        constraints = [];
      })

abbrev pub accounts_0001 : Migration
accounts_0001 = record {
  app = "accounts";
  name = "0001_initial";
  initial = true;
  dependencies = ("auth", "0012_alter_user_first_name_max_length") ∷ [];
  operations = create_user_table ∷ [];
}
