-- ===== src/Lang/Messages.antt =====
-- The catalogue of operator-facing messages: the map `messages` of i18n.go, in its order.
use grok_inspection.Base.{String, List, [], ◌∷◌, ◌++◌}

pub record Message : Type 0 where
  pub key : String
  pub zh : String
  pub en : String

abbrev entry : String → String → String → Message
entry key zh en = record { key = key; zh = zh; en = en }

abbrev status_messages : List Message
status_messages =
    entry "auth_expired" "认证已过期或失效" "Authentication expired or invalid"
    ∷ entry "quota_exhausted" "额度已用尽" "Quota exhausted"
    ∷ entry "temp_rate_limited" "临时限流 (HTTP 429)，建议稍后重试"
        "Temporarily rate-limited (HTTP 429); retry later"
    ∷ entry "client_version_outdated" "Grok CLI 客户端版本过旧，服务端要求升级（巡检插件会自动刷新版本）"
        "Grok CLI client version too old; server requires upgrade (plugin refreshes version automatically)"
    ∷ entry "permission_denied" "对话权限被拒绝" "Chat permission denied"
    ∷ entry "spending_limit" "额度或订阅受限" "Spending or subscription limit"
    ∷ entry "model_unavailable" "测试模型不可用" "Probe model unavailable"
    ∷ entry "chat_ok" "对话测试成功" "Chat probe succeeded"
    ∷ entry "probe_failed" "探测失败" "Probe failed"
    ∷ entry "unable_classify" "无法可靠分类" "Unable to classify reliably"
    ∷ entry "category_with_incremental" "分类巡检不能与增量巡检同时使用"
        "Category inspection cannot be combined with incremental inspection"
    ∷ entry "sample_with_incremental" "抽检不能与增量巡检同时使用"
        "Sample inspection cannot be combined with incremental inspection"
    ∷ entry "sample_params_required" "抽检请填写数量或比例" "Sample inspection requires a count or percent"
    ∷ entry "sample_count_invalid" "抽检数量无效" "Invalid sample count"
    ∷ entry "sample_percent_invalid" "抽检比例须在 0-100 之间" "Sample percent must be between 0 and 100"
    ∷ entry "incremental_needs_results" "增量巡检需要已有结果，请先完整巡检"
        "Incremental inspection requires existing results; run a full inspection first"
    ∷ entry "category_needs_results" "分类巡检需要已有结果，请先完整巡检"
        "Category inspection requires existing results; run a full inspection first"
    ∷ entry "no_accounts_in_category" "当前分类下没有可巡检账号"
        "No inspectable accounts in the current category"
    ∷ entry "list_accounts_failed" "列出账号失败: %s" "Failed to list accounts: %s"
    ∷ entry "stopped_before_probe" "已停止，未探测" "Stopped before probing"
    ∷ entry "stopped" "已停止" "Stopped"
    ∷ entry "account_missing" "Auth 列表中已不存在该账号" "Account no longer exists in the Auth list"
    ∷ entry "probe_timeout" "探测超时（>%s）" "Probe timed out (>%s)"
    ∷ entry "missing_auth_index" "缺少 auth_index" "Missing auth_index"
    ∷ entry "fallback_disagreed" "；备用接口结果不一致，按主探测结果判定"
        "; fallback endpoint disagreed; using primary probe result"
    ∷ entry "http_probe_timeout" "HTTP 探测超时（%s）: %s %s" "HTTP probe timed out (%s): %s %s"
    ∷ entry "list_accounts_timeout" "列出账号超时（30s）" "Listing accounts timed out (30s)"
    ∷ entry "menu_name" "Grok 账号巡检" "Grok Account Inspection"
    ∷ entry "menu_desc" "Grok 账号巡检与自动禁用（free-usage / 402 / 403 / 401）。"
        "Grok account inspection and auto-ban (free-usage / 402 / 403 / 401)."
    ∷ entry "workers_range" "并发必须是 %d 到 %d 之间的整数" "workers must be an integer between %d and %d"
    ∷ entry "already_running" "巡检已在运行" "inspection already running"
    ∷ entry "busy_row_action" "忙碌：行操作进行中" "busy: row action in progress"
    ∷ []

abbrev request_messages : List Message
request_messages =
    entry "cfg_autoban_enabled" "是否启用自动禁用（free-usage / spending-limit / permission-denied / 401）。"
      "Enable automatic ban for free-usage / spending-limit / permission-denied / 401."
    ∷ entry "cfg_fallback_hours" "没有准确恢复时间时，free-usage-exhausted 的禁用小时数，默认 24。"
        "Ban hours for free-usage-exhausted when no exact restore time is known (default 24)."
    ∷ entry "cfg_persist_state" "是否将自动禁用状态保存到 state_file。" "Persist auto-ban state to state_file."
    ∷ entry "cfg_state_file" "自动禁用状态 JSON 路径；留空时使用 data/hk-grok-inspection/bans.json。"
        "Auto-ban state JSON path; empty uses data/hk-grok-inspection/bans.json."
    ∷ entry "cfg_log_matches" "是否记录自动禁用命中日志。" "Log auto-ban match events."
    ∷ entry "save_autoban_state_failed" "保存自动禁用状态失败: %s" "Failed to save auto-ban state: %s"
    ∷ entry "invalid_json" "请求 JSON 无效" "invalid JSON body"
    ∷ entry "force_action_invalid" "force_action 必须是 disable、enable 或 delete"
        "force_action must be disable, enable, or delete"
    ∷ entry "force_action_requires_targets" "force_action 需要提供 auth_indexes 或 classifications"
        "force_action requires auth_indexes or classifications"
    ∷ entry "no_accounts_matched" "当前选择下没有匹配的账号" "no accounts matched current selection"
    ∷ entry "no_recommended_actions" "没有可执行的建议操作" "no recommended actions"
    ∷ entry "name_or_auth_required" "需要提供 name 或 auth_index" "name or auth_index required"
    ∷ entry "busy_unban" "忙：解禁进行中" "busy: unban in progress"
    ∷ entry "busy_inspection" "忙：巡检进行中" "busy: inspection running"
    ∷ entry "busy_apply" "忙：批量操作进行中" "busy: bulk apply in progress"
    ∷ entry "busy_generic" "忙：有任务进行中" "busy"
    ∷ entry "act_disable" "禁用" "disable"
    ∷ entry "act_enable" "启用" "enable"
    ∷ entry "act_delete" "删除" "delete"
    ∷ entry "apply_delete_batch" "删除批次 %d-%d/%d" "delete batch %d-%d/%d"
    ∷ entry "auth_not_found" "未找到账号: %s" "auth not found: %s"
    ∷ entry "auth_file_name_missing_for" "账号缺少 auth 文件名: %s" "auth file name missing for %s"
    ∷ entry "auth_file_name_missing" "账号缺少 auth 文件名" "auth file name missing"
    ∷ entry "mgmt_password_unavailable" "管理密码不可用" "CPA management password is unavailable"
    ∷ entry "ban_conflict_superseded" "启用被并发自动禁用抢占，账号已重新禁用"
        "enable superseded by concurrent ban; account re-disabled"
    ∷ entry "unsupported_action" "不支持的操作 %q" "unsupported action %q"
    ∷ entry "persist_ban_enabled" "已在 CPA 启用但保存禁用状态失败: %s"
        "enabled in CPA but failed to persist ban state: %s"
    ∷ entry "persist_ban_deleted_local" "本地已删除但保存禁用状态失败: %s"
        "deleted locally but failed to persist ban state: %s"
    ∷ entry "persist_ban_deleted_cpa" "已在 CPA 删除但保存禁用状态失败: %s"
        "deleted in CPA but failed to persist ban state: %s"
    ∷ entry "persist_ban_unbanned" "已在 CPA 解禁但保存禁用状态失败: %s"
        "unbanned in CPA but failed to persist ban state: %s"
    ∷ entry "persist_ban_state" "保存禁用状态: %s" "persist ban state: %s"
    ∷ []

abbrev pub messages : List Message
messages = status_messages ++ request_messages
