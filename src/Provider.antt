-- ===== src/Provider.antt =====
-- `crates/carriers-core/src/member.rs`: the interface through which membership is read and changed, and
-- the provider that fills it from the store.
use carriers.Base.{Text, Bool, List, Action, ok}
use carriers.Store.{
  Db, Score, Member, is_member, is_subscriber, is_poster, subscribers, add_member, remove_member,
  all_members,
}

-- `MemberProvider`, over the state that it keeps.
pub record MemberProvider (F W : Type 0) : Type 0 where
  pub is_member : Text → Text → Action W Bool
  pub is_subscriber : Text → Text → Action W Bool
  pub is_poster : Text → Text → Action W Bool
  pub recipients : Text → Action W (List Text)
  pub add : Text → Text → Bool → Bool → Bool → Action W (Unit {0})
  pub remove : Text → Text → Action W (Unit {0})
  pub members : Text → Action W (List (Member F))

-- `SqliteMemberProvider`
unfoldable pub sqlite_member_provider : {F : Type 0} ⦃score : Score F⦄ → MemberProvider F (Db F)
unfolding is_member is_subscriber is_poster subscribers add_member remove_member all_members
sqlite_member_provider = record {
  is_member = λ list address db. (ok (is_member list address db), db);
  is_subscriber = λ list address db. (ok (is_subscriber list address db), db);
  is_poster = λ list address db. (ok (is_poster list address db), db);
  recipients = λ list db. (ok (subscribers list db), db);
  add = λ list address subscribed poster moderator db.
      (ok tt, add_member list address subscribed poster moderator db);
  remove = λ list address db. (ok tt, remove_member list address db);
  members = λ list db. (ok (all_members list db), db);
}
