-- ===== src/Diagnostic.antt =====
-- src/diagnostic.rs: positions, diagnostics and the error code of a message format; and
-- `format_msg` of src/lexer/lexer.rs, which fills a format in. All text is UTF-8 bytes.
pub mod Format
use fly_lang.Prelude.{
  ℕ, Bool, true, false, ◌&&◌, ◌||◌, ◌==◌, if◌then◌else◌, Bytes, utf8, bytes_eq, List, [], ◌∷◌, ◌++◌,
  Option, none, some,
}

pub record Position : Type 0 where
  pub line : ℕ
  pub col : ℕ

pub record Diagnostic : Type 0 where
  pub pos : Position
  pub code : Bytes
  pub msg : Bytes

abbrev pub error_codes : List (Bytes × Bytes)
error_codes =
    (utf8 "期望 %s，实际为 %s", utf8 "E0001")
    ∷ (utf8 "期望表达式，实际为 %q", utf8 "E0002")
    ∷ (utf8 "期望语句结束，实际为 %q", utf8 "E0003")
    ∷ (utf8 "关键字 %s 暂不支持", utf8 "E0004")
    ∷ (utf8 "关键字参数名必须是标识符", utf8 "E0005")
    ∷ (utf8 "非法赋值目标", utf8 "E0006")
    ∷ (utf8 "装饰器后必须跟随 def 或 class", utf8 "E0007")
    ∷ (utf8 "字典/集合推导式暂不支持", utf8 "E0008")
    ∷ (utf8 "字典解包 {} 暂不支持", utf8 "E0009")
    ∷ (utf8 "lock 需要一个变量名", utf8 "E0010")
    ∷ (utf8 "seal 后必须跟随 class 定义", utf8 "E0011")
    ∷ (utf8 "level 必须是字符串（如 \"WARN\"）", utf8 "E0012")
    ∷ (utf8 "args 必须是 True 或 False", utf8 "E0013")
    ∷ (utf8 "ret 必须是 True 或 False", utf8 "E0014")
    ∷ (utf8 "trace 参数 %s 未知（支持 level/args/ret）", utf8 "E0015")
    ∷ (utf8 "cage 参数 %s 必须是字符串（如 max_time=\"5s\"）", utf8 "E0016")
    ∷ (utf8 "max_time 格式非法：%q（支持 500ms/5s/2m/1h）", utf8 "E0017")
    ∷ (utf8 "max_memory 格式非法：%q（支持 64KB/100MB/2GB）", utf8 "E0018")
    ∷ (utf8 "cage 参数 %s 未知（支持 max_time/max_memory）", utf8 "E0019")
    ∷ (utf8 "cage 需至少指定 max_time 或 max_memory 之一", utf8 "E0020")
    ∷ (utf8 "未闭合的括号", utf8 "E0021")
    ∷ (utf8 "行首不支持制表符缩进", utf8 "E0022")
    ∷ (utf8 "缩进级别与上层不一致", utf8 "E0023")
    ∷ (utf8 "字符串未闭合", utf8 "E0024")
    ∷ (utf8 "指数部分缺少数字: %s", utf8 "E0025")
    ∷ (utf8 "非法数字字面量 %s", utf8 "E0026")
    ∷ (utf8 "意外的字符 %q", utf8 "E0027")
    ∷ (utf8 "意外的字符 '%s'", utf8 "E0027")
    ∷ (utf8 "多余的右括号 '%s'", utf8 "E0028")
    ∷ (utf8 "多余的右括号 ')'", utf8 "E0028")
    ∷ (utf8 "多余的右括号 ']'", utf8 "E0028")
    ∷ (utf8 "多余的右括号 '}'", utf8 "E0028")
    ∷ (utf8 "名字 %s 重复定义（第一次在第 %d 行）", utf8 "E0029")
    ∷ (utf8 "函数参数 %s 重复定义", utf8 "E0030")
    ∷ (utf8 "未净化的外部输入 %s 流入 %s（危险汇点）", utf8 "E0031")
    ∷ (utf8 "未净化的外部输入 %s 流入函数 %s 的参数 %s（危险汇点）", utf8 "E0031")
    ∷ (utf8 "敏感数据 %s 不可流入 %s（输出上下文）", utf8 "E0032")
    ∷ (utf8 "敏感数据 %s 流入函数 %s 的参数 %s（输出上下文）", utf8 "E0032")
    ∷ (utf8 "lock 变量 %s 未定义", utf8 "E0033")
    ∷ (utf8 "lock 变量 %s 不可删除", utf8 "E0034")
    ∷ (utf8 "lock 变量 %s 不可再赋值", utf8 "E0035")
    ∷ (utf8 "lock 变量 %s 不可通过反射修改", utf8 "E0036")
    ∷ (utf8 "lock 变量 %s 不可通过 setattr 修改", utf8 "E0037")
    ∷ (utf8 "lock 变量 %s 不可通过 %s() 反射读取", utf8 "E0038")
    ∷ (utf8 "guard 变量 %s 未定义", utf8 "E0039")
    ∷ (utf8 "guard 类型必须是简单类型名（如 int、str）", utf8 "E0040")
    ∷ (utf8 "guard 类型 %s 与参数注解 %s 不一致", utf8 "E0041")
    ∷ (utf8 "guard 至少需要一个类型或条件", utf8 "E0042")
    ∷ (utf8 "guard 条件中引用了未定义的名字 %s", utf8 "E0043")
    ∷ (utf8 "only 白名单不能为空（需至少一个模块，如 only (json):）", utf8 "E0044")
    ∷ (utf8 "only 块禁止访问 %s（不在白名单 %v）", utf8 "E0045")
    ∷ (utf8 "seal 类实例 %s 的属性 %s 不可修改", utf8 "E0046")
    ∷ (utf8 "trace 级别 %s 非法（支持 DEBUG/INFO/WARNING/ERROR/CRITICAL）", utf8 "E0047")
    ∷ (utf8 "trace 块内函数名 %s 不能以 _fly_ 开头（保留前缀）", utf8 "E0048")
    ∷ (utf8 "trace 块内参数名 %s 不能以 _fly_ 开头（保留前缀）", utf8 "E0049")
    ∷ (utf8 "未定义的名字 %s（safe 需要先赋值）", utf8 "E0050")
    ∷ (utf8 "未定义的名字 %s（mask 需要先赋值）", utf8 "E0051")
    ∷ (utf8 "未定义的名字 %s", utf8 "E0052")
    ∷ (utf8 "函数 %s 需要至少 %d 个参数（实际 %d 个）", utf8 "E0053")
    ∷ (utf8 "函数 %s 最多接受 %d 个位置参数（实际 %d 个）", utf8 "E0054")
    ∷ (utf8 "函数 %s 没有名为 %s 的参数", utf8 "E0055")
    ∷ (utf8 "函数 %s 参数 %s 重复传值", utf8 "E0056")
    ∷ (utf8 "常量表达式除数为零", utf8 "E0057")
    ∷ (utf8 "运算符 %s 不支持 %s 与 %s", utf8 "E0058")
    ∷ (utf8 "运算符 ~ 不支持 %s", utf8 "E0059")
    ∷ (utf8 "运算符 %s 不支持 %s", utf8 "E0060")
    ∷ (utf8 "in 右侧不支持 %s", utf8 "E0061")
    ∷ (utf8 "%s 不可下标访问", utf8 "E0062")
    ∷ (utf8 "禁止调用内建 %s（沙箱逃逸风险）", utf8 "E0063")
    ∷ (utf8 "禁止反射访问属性 %s（沙箱逃逸风险）", utf8 "E0064")
    ∷ (utf8 "禁止反射下标访问 %s（沙箱逃逸风险）", utf8 "E0064")
    ∷ (utf8 "禁止访问模块属性 %s（沙箱逃逸风险）", utf8 "E0064")
    ∷ (utf8 "f-string 内禁止反射访问 %s（沙箱逃逸风险）", utf8 "E0064")
    ∷ (utf8 "f-string 内禁止访问内建 %s（沙箱逃逸风险）", utf8 "E0063")
    ∷ (utf8 "禁止访问 __builtins__（沙箱逃逸风险）", utf8 "E0065")
    ∷ (utf8 "禁止导入危险模块 %s（沙箱逃逸风险）", utf8 "E0066")
    ∷ []

-- `iter().find(..)` on the table, and the empty code where no row fits.
unfoldable pub code_in : List (Bytes × Bytes) → Bytes → Bytes
code_in [] format = []
code_in ((f, c) ∷ rows) format = if bytes_eq f format then c else code_in rows format

unfoldable pub error_code : Bytes → Bytes
error_code = code_in error_codes
